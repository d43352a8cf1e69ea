-- ===== src/App/Submission/Submit/Children.antt =====
-- The loop of `_submit_fanout` that creates the children keeps the table, and the rows that were there.
use nautobot_app_remote_jobs.Shared.{
  ℕ, String, true, false, ◌≡◌, ◌≢◌, sym, none, some, List, [], ◌∷◌, arith, ◌==◌, map, is_key, inr,
}
use nautobot_app_remote_jobs.Shared.Json.{arr}
use nautobot_app_remote_jobs.Shared.Lists.{All, contains}
use nautobot_app_remote_jobs.App.Records.{Run, World, Env, log_info}
use nautobot_app_remote_jobs.App.Runs.{log_to_result}
use nautobot_app_remote_jobs.App.Store.{find_run, set_run}
use nautobot_app_remote_jobs.App.Store.Rows.{
  Shape, shape, All-Member, Listed, find_run-Listed, pk-find_run, find_run-set_run,
}
use nautobot_app_remote_jobs.App.Store.Sound.{IsSound, WellFormed}
use nautobot_app_remote_jobs.App.Store.Result.{log-IsSound}
use nautobot_app_remote_jobs.App.Submission.{Inputs}
use nautobot_app_remote_jobs.App.Submission.Targets.{Core, mentioned, Request, new_run, insert_run}
use nautobot_app_remote_jobs.App.Submission.Submit.{
  put_input, device_ids, Child, add_child, add_children,
}
use nautobot_app_remote_jobs.App.Submission.Submit.Insert.{
  Fresh, mentioned-Fresh, insert-WellFormed, new_run-IsSound,
}

-- Every row is still found, unchanged.
abbrev pub Extends : List Run → List Run → Type 0
Extends rows rows' = (k : ℕ) (r : Run) → find_run k rows ≡ some r → find_run k rows' ≡ some r

-- A key of `uuid4` is none of those in use.
abbrev pub KeysAreNew : Core → Type 0
KeysAreNew core = (ks : List ℕ) → contains ks (core.new_key ks) ≡ false

Fresh-Listed : (k : ℕ) (r : Run) (rows : List Run) → Fresh k rows → Listed r rows → r.pk ≢ k
Fresh-Listed k r rows f m =
    (All-Member (λ s. (s.pk ≢ k) × (is_key s.parent k ≡ false)) (shape r) (map shape rows) m f).0

Fresh-find_run :
    (k j : ℕ) (rows : List Run) {r : Run}
    → Fresh k rows
    → find_run j rows ≡ some r
    → (k == j) ≡ false
Fresh-find_run k j rows {r} f e =
    let ne = Fresh-Listed k r rows f (find_run-Listed j rows e) in
    let q = pk-find_run j rows e in ground (arith, ne, q)

pub insert-Extends : (c : Run) (rows : List Run) → Fresh c.pk rows → Extends rows (c ∷ rows)
unfolding find_run
insert-Extends c rows f k r e = rw (Fresh-find_run c.pk k rows {r = r} f e) e

pub Extends-trans : (a b c : List Run) → Extends a b → Extends b c → Extends a c
Extends-trans a b c p q k r e = q k r (p k r e)

-- A save of a row that is new since `base` leaves the rows of `base`.
pub set_run-Extends :
    (r : Run) (base rows : List Run)
    → Fresh r.pk base
    → Extends base rows
    → Extends base (set_run r rows)
set_run-Extends r base rows f p k s e =
    let ne = Fresh-find_run r.pk k base {r = s} f e in rw (find_run-set_run k r rows, ne) (p k s e)

-- The table while the children of `p` are created.
pub record Growing (env : Env) (base : List Run) (w : World) (p : Run) : Type 0 where
  pub well_formed : WellFormed env w.runs
  pub parent_sound : IsSound env p
  pub parent_listed : Listed p w.runs
  pub parent_zoneless : All (λ s. s.pk ≡ p.pk → s.zone ≡ none) (map shape w.runs)
  pub parent_new : Fresh p.pk base
  pub extends : Extends base w.runs

child-ParentZoneless :
    (k : ℕ) (shs : List Shape)
    → All (λ s. s.pk ≡ k → s.zone ≡ none) shs
    → All (λ s. is_key (some k) s.pk ≡ true → s.zone ≡ none) shs
child-ParentZoneless k [] h = tt
child-ParentZoneless k (s ∷ shs) h = (λ e. h.0 (ground (arith, e)), child-ParentZoneless k shs h.1)

add_child-Growing :
    (env : Env) (core : Core) (q : Request) (stored : Inputs) (key : String) (c : Child)
    (base : List Run) (w : World) (p : Run)
    → KeysAreNew core
    → Growing env base w p
    → Growing env base
        (add_child env core q stored key c (w, p)).0
        (add_child env core q stored key c (w, p)).1
unfolding add_child new_run insert_run log_to_result
add_child-Growing env core q stored key c base w p n g =
    let k : ℕ = core.new_key (mentioned w.runs) in
    let f : Fresh k w.runs = mentioned-Fresh k w.runs (n (mentioned w.runs)) in
    let ne = Fresh-Listed k p w.runs f g.parent_listed in
    let r : Run =
      new_run env q (put_input key (arr (device_ids core c.devices)) stored) (some p.pk)
        (some c.zone) c.device k in
    record {
      well_formed =
          insert-WellFormed env r w.runs g.well_formed f
            (ground (arith, ne), child-ParentZoneless p.pk (map shape w.runs) g.parent_zoneless)
            (new_run-IsSound env q (put_input key (arr (device_ids core c.devices)) stored)
              (some p.pk) (some c.zone) c.device k);
      parent_sound =
          unfold log_to_result in
          log-IsSound env log_info "dispatch" (c.message k) p g.parent_sound;
      parent_listed = inr g.parent_listed;
      parent_zoneless = (λ e. absurd (ne (sym e)), g.parent_zoneless);
      parent_new = g.parent_new;
      extends = Extends-trans base w.runs (r ∷ w.runs) g.extends (insert-Extends r w.runs f);
    }

pub add_children-Growing :
    (env : Env) (core : Core) (q : Request) (stored : Inputs) (key : String) (cs : List Child)
    (base : List Run) (w : World) (p : Run)
    → KeysAreNew core
    → Growing env base w p
    → Growing env base
        (add_children env core q stored key cs (w, p)).0
        (add_children env core q stored key cs (w, p)).1
unfolding add_children
add_children-Growing env core q stored key [] base w p n g = g
add_children-Growing env core q stored key (c ∷ cs) base w p n g =
    let s : World × Run = add_child env core q stored key c (w, p) in
    add_children-Growing env core q stored key cs base s.0 s.1 n
      (add_child-Growing env core q stored key c base w p n g)
