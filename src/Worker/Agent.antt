-- ===== src/Worker/Agent.antt =====
-- worker/remote_worker/agent.py: the runs that the agent holds, and how they meet the journal. The asyncio
-- tasks of the runs are a list of their ids.
pub mod Recovery
use nautobot_app_remote_jobs.Shared.{
  ℕ, ◌-◌, String, Bool, true, false, not, ◌||◌, Option, none, some, List, [], ◌∷◌, ◌==◌,
  if◌then◌else◌, str_eq,
}
use Prim.Native.Char.{Char}
use nautobot_app_remote_jobs.Shared.Lists.{length, any, select}
use nautobot_app_remote_jobs.Worker.Journal.{Offer, JournalEntry, Disk, add, remove, load_all}

-- `active` are the keys of `_runs`; `connected` is that of the connection.
pub record Agent : Type 0 where
  pub capacity : ℕ
  pub active : List String
  pub journal : Disk
  pub draining : Bool
  pub closing : Bool
  pub connected : Bool
  pub claim_wanted : Bool

abbrev pub holds : String → List String → Bool
holds run_id ids = any (λ k. str_eq k run_id) ids

-- free_capacity
unfoldable pub free_capacity : Agent → ℕ
free_capacity a = a.capacity - length a.active

-- `start_run`: the task of the run is started.
unfoldable pub start_run : Offer → Agent → Agent
start_run o a =
    if str_eq o.run_id "" || holds o.run_id a.active
    then a
    else record a { active = o.run_id ∷ a.active }

unfoldable pub start_runs : List Offer → Agent → Agent
unfolding start_run
start_runs [] a = a
start_runs (o ∷ os) a = start_runs os (start_run o a)

-- What the server answers to job.claim, asked for at most `free_capacity` offers.
pub data ClaimAnswer : Type 0 where
  offers : List Offer → ClaimAnswer
  connection_closed server_draining refused : ClaimAnswer

abbrev pub claimed : Agent → ClaimAnswer → Agent
claimed a (offers []) = a
claimed a (offers (o ∷ os)) = record (start_runs (o ∷ os) a) { claim_wanted = true }
claimed a connection_closed = a
claimed a server_draining = record a { draining = true }
claimed a refused = a

-- `_maybe_claim`; `answer` is what the server says to the number of offers asked for.
unfoldable pub maybe_claim : (ℕ → ClaimAnswer) → Agent → Agent
unfolding free_capacity start_runs
maybe_claim answer a =
    if a.draining || a.closing || not a.connected
    then a
    else if free_capacity a == 0
    then a
    else claimed a (answer (free_capacity a))

-- `_recover_journaled_runs`, over the entries that were loaded
unfoldable pub recover_entries : List JournalEntry → Agent → Agent
recover_entries [] a = a
recover_entries (e ∷ es) a =
    recover_entries es
      (if holds e.run_id a.active then a else record a { active = e.run_id ∷ a.active })

unfoldable pub recover_journaled_runs : Agent → Agent
unfolding recover_entries
recover_journaled_runs a = recover_entries (load_all a.journal) a

-- `_run_finished`
unfoldable pub run_finished : String → Agent → Agent
run_finished run_id a = record a {
  active = select (λ k. not (str_eq k run_id)) a.active;
  claim_wanted = true;
}

-- The first line of RunTask.run: the offer is journaled before anything else is done for it.
unfoldable pub journal_offer : (Char → Bool) → ℕ → Offer → Agent → Agent
journal_offer is_alnum now o a = record a { journal = (add is_alnum o now a.journal).0 }

-- RunTask._cleanup: the entry goes once job.complete has been acknowledged.
unfoldable pub cleanup : (Char → Bool) → String → Bool → Agent → Agent
cleanup is_alnum run_id acked a =
    if acked then record a { journal = remove is_alnum run_id a.journal } else a

-- A new process of the agent, on the same state volume.
unfoldable pub restarted : Agent → Agent
restarted a = record a {
  active = [];
  draining = false;
  closing = false;
  connected = false;
  claim_wanted = false;
}

-- A frame of the server: what is answered, and whether a run is asked to cancel.
pub data ServerReply : Type 0 where
  empty_reply cancel_started unknown_run method_not_found : ServerReply

-- `_on_server_call`, with the `run_id` of the parameters
unfoldable pub on_server_call : String → String → Agent → Agent × ServerReply
on_server_call method run_id a =
    if str_eq method "worker.ping"
    then (a, empty_reply)
    else if str_eq method "worker.drain"
    then (record a { draining = true }, empty_reply)
    else if str_eq method "job.available"
    then (record a { claim_wanted = true }, empty_reply)
    else if str_eq method "job.cancel"
    then (a, if holds run_id a.active then cancel_started else unknown_run)
    else (a, method_not_found)
