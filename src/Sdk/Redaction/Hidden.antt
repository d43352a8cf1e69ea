-- ===== src/Sdk/Redaction/Hidden.antt =====
-- A registered value is not found in a text that was redacted.
use nautobot_app_remote_jobs.Shared.{
  ℕ, zero, suc, ◌-◌, ◌≤◌, Bool, true, false, ◌≡◌, refl, sym, ◌∙◌, ◌⊎◌, ◌&&◌, ◌||◌, List, [], ◌∷◌,
  ◌++◌, ◌==◌, arith, Bool-cases, inl, inr,
}
use nautobot_app_remote_jobs.Shared.Lists.{length}
use nautobot_app_remote_jobs.Sdk.Redaction.{
  mask, same_value, starts_with, is_in, replace_past, is_registered, register, register_many,
  insert_longest, registered_values, redact_value, redact_all, redact,
}

-- Of the two texts one begins with the other.
abbrev pub agree : List ℕ → List ℕ → Bool
agree v m = starts_with v m || starts_with m v

-- From some place in `m` on, `v` agrees with what is left of `m`.
abbrev pub begins_inside : List ℕ → List ℕ → Bool
begins_inside v [] = false
begins_inside v (c ∷ m) = agree v (c ∷ m) || begins_inside v m

-- From some place in `v` on, what is left of it agrees with the mask.
abbrev pub runs_into_mask : List ℕ → Bool
runs_into_mask [] = false
runs_into_mask (a ∷ v) = agree (a ∷ v) mask || runs_into_mask v

-- The value cannot overlap the mask: no end of it begins the mask, none of its beginnings ends the mask,
-- and neither is in the other.
abbrev pub IsApart : List ℕ → Type 0
IsApart v = (begins_inside v mask ≡ false) × (runs_into_mask v ≡ false)

abbrev drop : ℕ → List ℕ → List ℕ
drop n [] = []
drop zero (c ∷ text) = c ∷ text
drop (suc n) (c ∷ text) = drop n text

drop-zero : (text : List ℕ) → drop 0 text ≡ text
drop-zero [] = refl
drop-zero (c ∷ text) = refl

or_split : (a b : Bool) → (a || b) ≡ true → (a ≡ true) ⊎ (b ≡ true)
or_split true b h = inl refl
or_split false b h = inr h

in_tail : (c : ℕ) (v text : List ℕ) → is_in v text ≡ true → is_in v (c ∷ text) ≡ true
in_tail c v text h = ground (arith, h)

in_head : (c : ℕ) (v text : List ℕ) → starts_with v (c ∷ text) ≡ true → is_in v (c ∷ text) ≡ true
in_head c v text h = ground (arith, h)

starts_with-append : (v m rest : List ℕ) → starts_with v (m ++ rest) ≡ true → agree v m ≡ true
starts_with-append [] m rest h = ground arith
starts_with-append (a ∷ v) [] rest h = ground arith
starts_with-append (a ∷ v) (c ∷ m) rest h =
    let r = starts_with-append v m rest (ground (arith, h)) in ground (arith, h, r)

is_in-append :
    (v m rest : List ℕ)
    → begins_inside v m ≡ false
    → is_in v (m ++ rest) ≡ true
    → is_in v rest ≡ true
is_in-append v [] rest p h = h
is_in-append v (c ∷ m) rest p h =
    elim (or_split (starts_with v (c ∷ (m ++ rest))) (is_in v (m ++ rest)) h) [
      | inl e ↦ let r = starts_with-append v (c ∷ m) rest e in ground (arith, p, r)
      | inr e ↦ is_in-append v m rest (ground (arith, p)) e
    ]

is_in-drop :
    (n : ℕ) (a : ℕ) (v text : List ℕ)
    → is_in (a ∷ v) (drop n text) ≡ true
    → is_in (a ∷ v) text ≡ true
is_in-drop n a v [] h = h
is_in-drop zero a v (c ∷ text) h = h
is_in-drop (suc n) a v (c ∷ text) h = let r = is_in-drop n a v text h in ground (arith, r)

starts_with_empty : (v text : List ℕ) → starts_with v [] ≡ true → starts_with v text ≡ true
starts_with_empty [] text h = refl
starts_with_empty (a ∷ v) text h = ground (arith, h)

-- A value that does not run into the mask begins a replaced text only where it began the text.
starts_with-replace_past :
    (n : ℕ) (v w text : List ℕ)
    → runs_into_mask v ≡ false
    → starts_with v (replace_past n w text) ≡ true
    → starts_with v (drop n text) ≡ true
unfolding replace_past
starts_with-replace_past n v w [] p h = h
starts_with-replace_past (suc n) v w (c ∷ text) p h = starts_with-replace_past n v w text p h
starts_with-replace_past zero [] w (c ∷ text) p h = refl
starts_with-replace_past zero (a ∷ v) w (c ∷ text) p h =
    elim (Bool-cases (starts_with w (c ∷ text))) [
      | inl f ↦
          let r =
            starts_with-append (a ∷ v) mask (replace_past (length w - 1) w text) (rw f at h) in
          ground (arith, r, p)
      | inr f ↦
          let g : ((a == c) && starts_with v (replace_past 0 w text)) ≡ true = rw f at h in
          let r = starts_with-replace_past 0 v w text (ground (arith, p)) (ground (arith, g)) in
          let s = drop-zero text in ground (arith, g, r, s)
    ]

is_in-replace_past :
    (n : ℕ) (a : ℕ) (v w text : List ℕ)
    → IsApart (a ∷ v)
    → is_in (a ∷ v) (replace_past n w text) ≡ true
    → is_in (a ∷ v) (drop n text) ≡ true
unfolding replace_past
is_in-replace_past n a v w [] p h = h
is_in-replace_past (suc n) a v w (c ∷ text) p h = is_in-replace_past n a v w text p h
is_in-replace_past zero a v w (c ∷ text) p h = elim (Bool-cases (starts_with w (c ∷ text))) [
  | inl f ↦
      let rest = is_in-append (a ∷ v) mask (replace_past (length w - 1) w text) p.0 (rw f at h) in
      let r =
        is_in-drop (length w - 1) a v text (is_in-replace_past (length w - 1) a v w text p rest) in
      in_tail c (a ∷ v) text r
  | inr f ↦
      elim (or_split (starts_with (a ∷ v) (c ∷ replace_past 0 w text))
        (is_in (a ∷ v) (replace_past 0 w text)) (rw f at h)) [
          | inl g ↦
              let r = starts_with-replace_past 0 (a ∷ v) w (c ∷ text) p.1 (rw f g) in
              in_head c (a ∷ v) text r
          | inr g ↦
              let r = is_in-drop 0 a v text (is_in-replace_past 0 a v w text p g) in
              in_tail c (a ∷ v) text r
        ]
]

-- A value that is replaced is gone.
replaced :
    (n : ℕ) (a : ℕ) (v text : List ℕ)
    → IsApart (a ∷ v)
    → is_in (a ∷ v) (replace_past n (a ∷ v) text) ≡ true
    → false ≡ true
unfolding replace_past
replaced n a v [] p h = h
replaced (suc n) a v (c ∷ text) p h = replaced n a v text p h
replaced zero a v (c ∷ text) p h = elim (Bool-cases (starts_with (a ∷ v) (c ∷ text))) [
  | inl f ↦
      let rest =
        is_in-append (a ∷ v) mask (replace_past (length (a ∷ v) - 1) (a ∷ v) text) p.0
          (rw f at h) in
      replaced (length (a ∷ v) - 1) a v text p rest
  | inr f ↦
      elim (or_split (starts_with (a ∷ v) (c ∷ replace_past 0 (a ∷ v) text))
        (is_in (a ∷ v) (replace_past 0 (a ∷ v) text)) (rw f at h)) [
          | inl g ↦
              let r = starts_with-replace_past 0 (a ∷ v) (a ∷ v) (c ∷ text) p.1 (rw f g) in
              sym f ∙ r
          | inr g ↦ replaced 0 a v text p g
        ]
]

is_in-redact_value :
    (a : ℕ) (v w text : List ℕ)
    → IsApart (a ∷ v)
    → is_in (a ∷ v) text ≡ false
    → is_in (a ∷ v) (redact_value w text) ≡ false
unfolding redact_value
is_in-redact_value a v w text p h = elim (Bool-cases (is_in w text)) [
  | inl e ↦ rw e (elim (Bool-cases (is_in (a ∷ v) (replace_past 0 w text))) [
    | inl g ↦
        let r = is_in-drop 0 a v text (is_in-replace_past 0 a v w text p g) in ground (arith, h, r)
    | inr g ↦ g
  ])
  | inr e ↦ rw e h
]

is_in-redact_all :
    (a : ℕ) (v : List ℕ) (ws : List (List ℕ)) (text : List ℕ)
    → IsApart (a ∷ v)
    → is_in (a ∷ v) text ≡ false
    → is_in (a ∷ v) (redact_all ws text) ≡ false
unfolding redact_all
is_in-redact_all a v [] text p h = h
is_in-redact_all a v (w ∷ ws) text p h =
    is_in-redact_all a v ws (redact_value w text) p (is_in-redact_value a v w text p h)

redact_value_hides :
    (a : ℕ) (v text : List ℕ) → IsApart (a ∷ v) → is_in (a ∷ v) (redact_value (a ∷ v) text) ≡ false
unfolding redact_value
redact_value_hides a v text p = elim (Bool-cases (is_in (a ∷ v) text)) [
  | inl e ↦ rw e (elim (Bool-cases (is_in (a ∷ v) (replace_past 0 (a ∷ v) text))) [
    | inl g ↦ ground (arith, replaced 0 a v text p g)
    | inr g ↦ g
  ])
  | inr e ↦ rw e e
]

same_value_eq : (v w : List ℕ) → same_value v w ≡ true → v ≡ w
same_value_eq [] [] h = refl
same_value_eq (a ∷ v) (b ∷ w) h =
    let q = same_value_eq v w (ground (arith, h)) in let e : a ≡ b = ground (arith, h) in rw (e, q)
same_value_eq [] (b ∷ w) h = ground (arith, h)
same_value_eq (a ∷ v) [] h = ground (arith, h)

same_value_refl : (v : List ℕ) → same_value v v ≡ true
same_value_refl [] = refl
same_value_refl (a ∷ v) = let r = same_value_refl v in ground (arith, r)

redact_all_hides :
    (a : ℕ) (v : List ℕ) (ws : List (List ℕ)) (text : List ℕ)
    → IsApart (a ∷ v)
    → is_registered (a ∷ v) ws ≡ true
    → is_in (a ∷ v) (redact_all ws text) ≡ false
unfolding redact_all
redact_all_hides a v [] text p h = ground (arith, h)
redact_all_hides a v (w ∷ ws) text p h =
    elim (or_split (same_value (a ∷ v) w) (is_registered (a ∷ v) ws) h) [
      | inl e ↦
          let q = sym (same_value_eq (a ∷ v) w e) in
          is_in-redact_all a v ws (redact_value w text) p (rw q (redact_value_hides a v text p))
      | inr e ↦ redact_all_hides a v ws (redact_value w text) p e
    ]

is_registered-insert_longest :
    (v w : List ℕ) (ws : List (List ℕ))
    → is_registered v (insert_longest w ws) ≡ (same_value v w || is_registered v ws)
unfolding insert_longest
is_registered-insert_longest v w [] = refl
is_registered-insert_longest v w (x ∷ ws) =
    let rest = is_registered-insert_longest v w ws in ground (arith, rest)

is_registered-registered_values :
    (v : List ℕ) (ws : List (List ℕ))
    → is_registered v ws ≡ true
    → is_registered v (registered_values ws) ≡ true
unfolding registered_values
is_registered-registered_values v [] h = h
is_registered-registered_values v (w ∷ ws) h =
    let e = is_registered-insert_longest v w (registered_values ws) in
    let r = is_registered-registered_values v ws in ground (arith, h, e, r)

pub register_keeps :
    (v w : List ℕ) (values : List (List ℕ))
    → is_registered v values ≡ true
    → is_registered v (register w values) ≡ true
unfolding register
register_keeps v w values h = ground (arith, h)

pub is_registered-register :
    (v : List ℕ) (values : List (List ℕ))
    → 4 ≤ length v
    → is_registered v (register v values) ≡ true
unfolding register
is_registered-register v values n = let r = same_value_refl v in ground (arith, n, r)

register_many_keeps :
    (v : List ℕ) (ws values : List (List ℕ))
    → is_registered v values ≡ true
    → is_registered v (register_many ws values) ≡ true
unfolding register_many
register_many_keeps v [] values h = h
register_many_keeps v (w ∷ ws) values h =
    register_many_keeps v ws (register w values) (register_keeps v w values h)

pub redact-IsHidden :
    (v : List ℕ) (values : List (List ℕ)) (text : List ℕ)
    → 4 ≤ length v
    → IsApart v
    → is_registered v values ≡ true
    → is_in v (redact values text) ≡ false
unfolding redact
redact-IsHidden [] values text n p h = ground (arith, n)
redact-IsHidden (a ∷ v) values text n p h =
    redact_all_hides a v (registered_values values) text p
      (is_registered-registered_values (a ∷ v) values h)
