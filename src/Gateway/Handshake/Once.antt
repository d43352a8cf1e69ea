-- ===== src/Gateway/Handshake/Once.antt =====
-- A handshake is let through to the app at most once: the nonce and the clock skew of auth.py together.
use nautobot_app_remote_jobs.Shared.{
  ℕ, ◌+◌, ◌*◌, ◌≤◌, String, Bool, true, false, ◌≡◌, refl, List, [], ◌∷◌, Option, none, some, arith,
  Bool-cases, inl, inr, if_both,
}
use nautobot_app_remote_jobs.Shared.Json.{Json}
use nautobot_app_remote_jobs.Gateway.Handshake.{
  Handshake, Settings, Peers, parse_handshake, check_timestamp, nonce_key, check_nonce, admit,
  admitted, shake_hands, shake_all,
}

-- SET NX EX of Redis: a key that was claimed is held until its time to live is over, whatever else is
-- claimed, and a key that is held is not claimed.
pub record Expires {ℓ} {Store : Type ℓ} (peers : Peers Store) : Type (1 ⊔ ℓ) where
  pub Held : Store → String → ℕ → Type 0
  pub claimed :
      (t ttl : ℕ) (k : String) (s : Store)
      → (peers.set_nx t ttl k s).0 ≡ true
      → Held (peers.set_nx t ttl k s).1 k (t + ttl)
  pub kept :
      (t ttl : ℕ) (j k : String) (u : ℕ) (s : Store)
      → Held s k u
      → Held (peers.set_nx t ttl j s).1 k u
  pub refused :
      (t ttl : ℕ) (k : String) (u : ℕ) (s : Store)
      → Held s k u
      → t ≤ u
      → (peers.set_nx t ttl k s).0 ≡ false

module _ {ℓ} {Store : Type ℓ} (peers : Peers Store) (redis : Expires peers)
    (settings : Settings) where
  admit-Held :
      (now : ℕ) (h : Handshake) (s : Store)
      → (admit peers settings now h s).0 ≡ true
      → redis.Held
          (admit peers settings now h s).1
          (nonce_key h.worker_id h.nonce)
          (now + settings.nonce_ttl_seconds)
  unfolding admit check_nonce
  admit-Held now h s e = elim (Bool-cases (check_timestamp h settings.timestamp_skew_seconds now)) [
    | inl t ↦ rw t (
        redis.claimed now settings.nonce_ttl_seconds (nonce_key h.worker_id h.nonce) s
          (ground (arith, e, t)))
    | inr t ↦ absurd (ground (arith, e, t))
  ]

  admit-keeps :
      (now : ℕ) (h : Handshake) (k : String) (u : ℕ) (s : Store)
      → redis.Held s k u
      → redis.Held (admit peers settings now h s).1 k u
  unfolding admit check_nonce
  admit-keeps now h k u s held =
      if_both {A = Bool × Store} (λ r. redis.Held r.1 k u)
        (check_timestamp h settings.timestamp_skew_seconds now)
        (redis.kept now settings.nonce_ttl_seconds (nonce_key h.worker_id h.nonce) k u s held) held

  admitted-keeps :
      (now : ℕ) (o : Option Handshake) (k : String) (u : ℕ) (s : Store)
      → redis.Held s k u
      → redis.Held (admitted peers settings now s o).1 k u
  admitted-keeps now none k u s held = held
  admitted-keeps now (some h) k u s held = admit-keeps now h k u s held

  shake_all-keeps :
      (ps : List (ℕ × Json)) (k : String) (u : ℕ) (s : Store)
      → redis.Held s k u
      → redis.Held (shake_all peers settings ps s) k u
  unfolding shake_all shake_hands
  shake_all-keeps [] k u s held = held
  shake_all-keeps (p ∷ ps) k u s held =
      shake_all-keeps ps k u (admitted peers settings p.0 s (parse_handshake peers p.1)).1
        (admitted-keeps p.0 (parse_handshake peers p.1) k u s held)

  fresh_enough :
      (now later : ℕ) (h : Handshake)
      → check_timestamp h settings.timestamp_skew_seconds now ≡ true
      → check_timestamp h settings.timestamp_skew_seconds later ≡ true
      → later ≤ now + 2 * settings.timestamp_skew_seconds
  unfolding check_timestamp
  fresh_enough now later h a b = ground arith

  admit-fresh :
      (now : ℕ) (h : Handshake) (s : Store)
      → (admit peers settings now h s).0 ≡ true
      → check_timestamp h settings.timestamp_skew_seconds now ≡ true
  unfolding admit
  admit-fresh now h s e = ground (arith, e)

  -- A handshake that was let through to the app is not let through again, whatever first frames other
  -- connections send in between and however late it is replayed, if a nonce is remembered for at least
  -- twice the allowed clock skew; Redis has to keep a claimed key until it expires.
  pub handshake_once :
      (now later : ℕ) (h : Handshake) (others : List (ℕ × Json)) (s : Store)
      → 2 * settings.timestamp_skew_seconds ≤ settings.nonce_ttl_seconds
      → (admit peers settings now h s).0 ≡ true
      → (admit peers settings later h
          (shake_all peers settings others (admit peers settings now h s).1)).0
        ≡ false
  handshake_once now later h others s enough e =
      let k : String = nonce_key h.worker_id h.nonce in
      let u : ℕ = now + settings.nonce_ttl_seconds in
      let v : Store = shake_all peers settings others (admit peers settings now h s).1 in
      let held : redis.Held v k u =
        shake_all-keeps others k u (admit peers settings now h s).1 (admit-Held now h s e) in
      elim (Bool-cases (check_timestamp h settings.timestamp_skew_seconds later)) [
        | inl t ↦
            let late : later ≤ u =
              (let f = fresh_enough now later h (admit-fresh now h s e) t in omega arith) in
            let r = redis.refused later settings.nonce_ttl_seconds k u v held late in
            unfold admit check_nonce in rw (t, r) refl
        | inr t ↦ unfold admit in rw t refl
      ]
