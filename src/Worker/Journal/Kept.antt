-- ===== src/Worker/Journal/Kept.antt =====
-- The journal of journal.py is a map from the names of its files to entries.
use nautobot_app_remote_jobs.Shared.{
  ℕ, String, Bool, true, false, ◌≡◌, refl, sym, ◌∙◌, Option, none, some, [], ◌∷◌, arith, str_eq,
  eq_iff, Bool-cases, inl, inr,
}
use Prim.Native.Char.{Char}
use nautobot_app_remote_jobs.Worker.Paths.{path_of}
use nautobot_app_remote_jobs.Worker.Journal.{
  Offer, JournalEntry, Disk, read_path, write_path, unlink_path, get, new_entry, add_new, add,
  remove,
}

str_eq_refl : (s : String) → str_eq s s ≡ true
str_eq_refl s = (eq_iff s s).1 refl

-- A name that is not the one of another text.
other_name : (f p q : String) → str_eq p q ≡ false → str_eq f p ≡ true → str_eq f q ≡ false
other_name f p q ne e = elim (Bool-cases (str_eq f q)) [
  | inl t ↦ absurd (
      let a = (eq_iff f p).0 e in
      let b = (eq_iff f q).0 t in
      let c : str_eq p q ≡ true = (eq_iff p q).1 (sym a ∙ b) in ground (arith, c, ne))
  | inr t ↦ t
]

read-write : (p : String) (e : JournalEntry) (d : Disk) → read_path p (write_path p e d) ≡ some e
unfolding read_path write_path
read-write p e [] = rw (str_eq_refl p) refl
read-write p e (f ∷ d) = elim (Bool-cases (str_eq f.path p)) [
  | inl t ↦ rw (t, str_eq_refl p) refl
  | inr t ↦ rw (t, t, read-write p e d) refl
]

read-write_other :
    (p q : String) (e : JournalEntry) (d : Disk)
    → str_eq p q ≡ false
    → read_path q (write_path p e d) ≡ read_path q d
unfolding read_path write_path
read-write_other p q e [] ne = rw ne refl
read-write_other p q e (f ∷ d) ne = elim (Bool-cases (str_eq f.path p)) [
  | inl t ↦ rw (t, ne, other_name f.path p q ne t) refl
  | inr t ↦ rw (t, read-write_other p q e d ne) refl
]

read-unlink : (p : String) (d : Disk) → read_path p (unlink_path p d) ≡ none
unfolding read_path unlink_path
read-unlink p [] = refl
read-unlink p (f ∷ d) = elim (Bool-cases (str_eq f.path p)) [
  | inl t ↦ rw (t, read-unlink p d) refl
  | inr t ↦ rw (t, t, read-unlink p d) refl
]

read-unlink_other :
    (p q : String) (d : Disk) → str_eq p q ≡ false → read_path q (unlink_path p d) ≡ read_path q d
unfolding read_path unlink_path
read-unlink_other p q [] ne = refl
read-unlink_other p q (f ∷ d) ne = elim (Bool-cases (str_eq f.path p)) [
  | inl t ↦ rw (t, read-unlink_other p q d ne, other_name f.path p q ne t) refl
  | inr t ↦ rw (t, read-unlink_other p q d ne) refl
]

module _ (is_alnum : Char → Bool) where
  get-add_new :
      (o : Offer) (t : ℕ) (d : Disk) (r : Option JournalEntry)
      → get is_alnum o.run_id d ≡ r
      → get is_alnum o.run_id (add_new is_alnum o t d r).0 ≡ some (add_new is_alnum o t d r).1
  unfolding get
  get-add_new o t d (some e) h = h
  get-add_new o t d none h = read-write (path_of is_alnum o.run_id) (new_entry is_alnum o t) d

  add_new-other :
      (o : Offer) (t : ℕ) (k : String) (d : Disk) (r : Option JournalEntry)
      → str_eq (path_of is_alnum o.run_id) (path_of is_alnum k) ≡ false
      → get is_alnum k (add_new is_alnum o t d r).0 ≡ get is_alnum k d
  unfolding get
  add_new-other o t k d (some e) ne = refl
  add_new-other o t k d none ne =
      read-write_other (path_of is_alnum o.run_id) (path_of is_alnum k) (new_entry is_alnum o t) d
        ne

  -- The journal as a map: an offer that is added is found, with the entry that was there before if there
  -- was one; a run that is removed is not found; and neither changes what is found of a run whose file has
  -- another name.
  pub journal_refines_map :
      (o : Offer) (t : ℕ) (k : String) (d : Disk)
      → (get is_alnum o.run_id (add is_alnum o t d).0 ≡ some (add is_alnum o t d).1)
        × ((e : JournalEntry) → get is_alnum o.run_id d ≡ some e → add is_alnum o t d ≡ (d, e))
        × (get is_alnum k (remove is_alnum k d) ≡ none)
        × (str_eq (path_of is_alnum o.run_id) (path_of is_alnum k) ≡ false
            → (get is_alnum k (add is_alnum o t d).0 ≡ get is_alnum k d)
              × (get is_alnum k (remove is_alnum o.run_id d) ≡ get is_alnum k d))
  unfolding add remove
  journal_refines_map o t k d = (
    get-add_new o t d (get is_alnum o.run_id d) refl,
    λ e h. rw h refl,
    unfold get in read-unlink (path_of is_alnum k) d,
    λ ne. (
      add_new-other o t k d (get is_alnum o.run_id d) ne,
      unfold get in read-unlink_other (path_of is_alnum o.run_id) (path_of is_alnum k) d ne,
    ),
  )
