-- ===== src/Worker/Agent/Recovery.antt =====
-- What the agent holds after a restart, and how many runs it takes on.
use nautobot_app_remote_jobs.Shared.{
  ℕ, String, Bool, true, ◌≡◌, refl, subst, Option, some, List, [], ◌∷◌, arith, leb, if◌then◌else◌,
  str_eq, eq_iff, Bool-cases, Option-cases, inl, inr, if_both,
}
use Prim.Native.Char.{Char}
use nautobot_app_remote_jobs.Shared.Lists.{All}
use nautobot_app_remote_jobs.Worker.Paths.{path_of}
use nautobot_app_remote_jobs.Worker.Journal.{
  Offer, JournalEntry, Disk, read_path, get, add, readable, sort_entries, insert_entry, load_all,
}
use nautobot_app_remote_jobs.Worker.Journal.Kept.{journal_refines_map}
use nautobot_app_remote_jobs.Worker.Agent.{
  Agent, holds, recover_entries, recover_journaled_runs, journal_offer, restarted,
}

insert-All :
    (P : JournalEntry → Type 0) (e : JournalEntry) (xs : List JournalEntry)
    → All P (insert_entry e xs)
    → P e × All P xs
unfolding insert_entry
insert-All P e [] h = h
insert-All P e (x ∷ xs) h = elim (Bool-cases (leb e.started_at x.started_at)) [
  | inl t ↦ let g : All P (e ∷ x ∷ xs) = rw t at h in g
  | inr t ↦
      let g : All P (x ∷ insert_entry e xs) = rw t at h in
      let rest = insert-All P e xs g.1 in (rest.0, (g.0, rest.1))
]

sort-All : (P : JournalEntry → Type 0) (xs : List JournalEntry) → All P (sort_entries xs) → All P xs
unfolding sort_entries
sort-All P [] h = tt
sort-All P (x ∷ xs) h = let (a, b) = insert-All P x (sort_entries xs) h in (a, sort-All P xs b)

holds_other : (k j : String) (ids : List String) → holds k ids ≡ true → holds k (j ∷ ids) ≡ true
holds_other k j ids h = ground (arith, h)

holds_head : (k : String) (ids : List String) → holds k (k ∷ ids) ≡ true
holds_head k ids = let e : str_eq k k ≡ true = (eq_iff k k).1 refl in ground (arith, e)

recover-keeps :
    (es : List JournalEntry) (k : String) (a : Agent)
    → holds k a.active ≡ true
    → holds k (recover_entries es a).active ≡ true
unfolding recover_entries
recover-keeps [] k a h = h
recover-keeps (e ∷ es) k a h =
    recover-keeps es k
      (if holds e.run_id a.active then a else record a { active = e.run_id ∷ a.active })
      (if_both {A = Agent} (λ b. holds k b.active ≡ true) (holds e.run_id a.active) h
        (holds_other k e.run_id a.active h))

recover-All :
    (es : List JournalEntry) (a : Agent)
    → All (λ e. holds e.run_id (recover_entries es a).active ≡ true) es
unfolding recover_entries
recover-All [] a = tt
recover-All (e ∷ es) a =
    let b : Agent =
      if holds e.run_id a.active then a else record a { active = e.run_id ∷ a.active } in
    (
      recover-keeps es e.run_id b (elim (Bool-cases (holds e.run_id a.active)) [
        | inl t ↦ rw (t, t) refl
        | inr t ↦ rw t (holds_head e.run_id a.active)
      ]),
      recover-All es b,
    )

entry_eq : (d e : JournalEntry) → ◌≡◌ {A = Option JournalEntry} (some d) (some e) → d ≡ e
entry_eq d e h = cc

readable-read :
    (P : JournalEntry → Type 0) (path : String) (d : Disk) (e : JournalEntry)
    → All P (readable d)
    → read_path path d ≡ some e
    → P e
unfolding readable read_path
readable-read P path [] e h r = cc
readable-read P path (f ∷ d) e h r = elim (Option-cases f.content) [
  | inl c ↦ elim (Bool-cases (str_eq f.path path)) [
    | inl t ↦ absurd (ground (arith, r, t, c))
    | inr t ↦ readable-read P path d e (rw c at h) (ground (arith, r, t))
  ]
  | inr (x, c) ↦
      let g : All P (x ∷ readable d) = rw c at h in
      elim (Bool-cases (str_eq f.path path)) [
        | inl t ↦ subst P (entry_eq x e (ground (arith, r, t, c))) g.0
        | inr t ↦ readable-read P path d e g.1 (ground (arith, r, t))
      ]
]

recovered :
    (is_alnum : Char → Bool) (a : Agent) (k : String) (e : JournalEntry)
    → get is_alnum k a.journal ≡ some e
    → holds e.run_id (recover_journaled_runs (restarted a)).active ≡ true
unfolding recover_journaled_runs load_all get restarted
recovered is_alnum a k e h =
    let d : Disk = a.journal in
    let b : Agent = restarted a in
    let P : JournalEntry → Type 0 =
      λ x. holds x.run_id (recover_entries (sort_entries (readable d)) b).active ≡ true in
    readable-read P (path_of is_alnum k) d e
      (sort-All P (readable d) (recover-All (sort_entries (readable d)) b)) h

-- A run whose entry the journal has, also one journaled by the process before, has a task once the
-- restarted agent has recovered; in particular an offer that was journaled before the restart has one.
pub journaled_run_recovered :
    (is_alnum : Char → Bool) (a : Agent) (k : String) (e : JournalEntry) (now : ℕ) (o : Offer)
    → (get is_alnum k a.journal ≡ some e
        → holds e.run_id (recover_journaled_runs (restarted a)).active ≡ true)
      × (holds
            (add is_alnum o now a.journal).1.run_id
            (recover_journaled_runs (restarted (journal_offer is_alnum now o a))).active
          ≡ true)
unfolding journal_offer
journaled_run_recovered is_alnum a k e now o = (
  recovered is_alnum a k e,
  recovered is_alnum (journal_offer is_alnum now o a) o.run_id (add is_alnum o now a.journal).1
      (journal_refines_map is_alnum o now k a.journal).0,
)
