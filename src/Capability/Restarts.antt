-- ===== src/Capability/Restarts.antt =====
-- The runs of the handlers of pi/extensions/classified-workflows/index.ts that touch the capability
-- circuit and the pause, with restarts of the session at any time.
use mathlib.Core.List.{reverse}
use metagenda.Base.{
  ℕ, ◌≤◌, ◌≡◌, refl, ap, ◌∙◌, inl, inr, List, [], ◌∷◌, ◌++◌, Bool, true, false, not, ◌&&◌, ◌||◌,
  find, arith, Bool-cases, if◌then◌else◌,
}
use metagenda.Base.Text.{Text, trim, is_empty}
use metagenda.Base.Value.{Value, max_safe_integer, ◌>>=◌}
use metagenda.Capability.Circuit.{
  capability_outcome, advance_capability_circuit, empty_capability_circuit, is_circuit_entry,
  found_circuit, restore_capability_circuit,
}
use metagenda.Capability.Pause.{
  is_pause_entry, latest_continuation_pause, is_continuation_paused, was_run_aborted, pauses,
  parse_entry,
}
use metagenda.Capability.Session.{
  Session, append_circuit, set_continuation_paused, closed_circuit, opened_circuit, restored,
  session_start, resume_continuation, close_for_tools, input, handshake, count_outcome, agent_end,
}
use metagenda.Capability.Durable.{
  IsStorable, IsKept, found-IsStorable, advance-IsStorable, circuit-IsKept,
  set_capability_circuit-IsKept, set_continuation_paused-IsKept, find-older,
}

-- The session before its start, on whatever log.
abbrev pub fresh : List Value → Session
fresh log = record {
  circuit = empty_capability_circuit;
  paused = false;
  skip_next = false;
  log = log;
}

-- What can happen to a session at a time: the events of the host, and an entry of another kind that
-- some extension appends.
pub data Step : ℕ → Session → Session → Type 0 where
  restarts : {now : ℕ} {s : Session} → (tools : Bool) → Step now s (session_start tools now s)
  takes_input :
      {now : ℕ} {s : Session}
      → (interactive : Bool) → (text : Text) → (tools : Bool)
      → Step now s (input interactive text tools now s)
  resumes : {now : ℕ} {s : Session} → Step now s (resume_continuation now s)
  shakes_hands : {now : ℕ} {s : Session} → (failed : Bool) → Step now s (handshake failed now s)
  ends_turn :
      {now : ℕ} {s : Session}
      → (messages : List Value) → (reload_pending : Bool)
      → Step now s (agent_end messages reload_pending now s)
  saves : {now : ℕ} {s : Session} → Step now s (append_circuit s)
  logs :
      {now : ℕ} {s : Session}
      → (entry : Value) → is_circuit_entry entry ≡ false
      → is_pause_entry entry ≡ false
      → Step now s (record s { log = s.log ++ entry ∷ [] })

pub data Reached : Session → Type 0 where
  starts :
      (log : List Value) (tools : Bool) (now : ℕ)
      → now ≤ max_safe_integer
      → Reached (session_start tools now (fresh log))
  goes_on :
      (now : ℕ) (s t : Session) → Reached s → now ≤ max_safe_integer → Step now s t → Reached t

closed_circuit-IsStorable : (now : ℕ) → now ≤ max_safe_integer → IsStorable (closed_circuit now)
closed_circuit-IsStorable now n = record { bounded = omega arith; agrees = refl; safe = n }

opened_circuit-IsStorable : (now : ℕ) → now ≤ max_safe_integer → IsStorable (opened_circuit now)
opened_circuit-IsStorable now n = record { bounded = omega arith; agrees = refl; safe = n }

restored-IsKept : (s : Session) → IsKept (restored s)
unfolding restore_capability_circuit
restored-IsKept s = record {
  circuit = refl;
  pause = refl;
  storable = found-IsStorable (find is_circuit_entry (reverse s.log));
}

if-IsKept : (b : Bool) (s t : Session) → IsKept s → IsKept t → IsKept (if b then s else t)
if-IsKept true s t k q = k
if-IsKept false s t k q = q

session_start-IsKept :
    (tools : Bool) (now : ℕ) (s : Session)
    → now ≤ max_safe_integer
    → IsKept (session_start tools now s)
unfolding session_start
session_start-IsKept tools now s n =
    if-IsKept ((restored s).circuit.is_open && tools) _ _
      (circuit-IsKept (closed_circuit now) (restored s) (closed_circuit-IsStorable now n)
        (restored-IsKept s))
      (restored-IsKept s)

close_for_tools-IsKept :
    (tools : Bool) (now : ℕ) (s : Session)
    → now ≤ max_safe_integer
    → IsKept s
    → IsKept (close_for_tools tools now s)
close_for_tools-IsKept tools now s n k =
    if-IsKept (s.circuit.is_open && tools) _ _
      (set_capability_circuit-IsKept (closed_circuit now) s (closed_circuit-IsStorable now n) k) k

input-IsKept :
    (interactive : Bool) (text : Text) (tools : Bool) (now : ℕ) (s : Session)
    → now ≤ max_safe_integer
    → IsKept s
    → IsKept (input interactive text tools now s)
unfolding input
input-IsKept interactive text tools now s n k =
    if-IsKept (not interactive || is_empty (trim text)) _ _ k (
      close_for_tools-IsKept tools now (resume_continuation now s) n
        (set_continuation_paused-IsKept false now s k))

handshake-IsKept :
    (failed : Bool) (now : ℕ) (s : Session)
    → now ≤ max_safe_integer
    → IsKept s
    → IsKept (handshake failed now s)
unfolding handshake
handshake-IsKept failed now s n k =
    let k' : IsKept (record s { skip_next = true }) = record {
      circuit = k.circuit;
      pause = k.pause;
      storable = k.storable;
    } in
    elim (Bool-cases failed) [
      | inl t ↦ rw t (
          set_capability_circuit-IsKept (opened_circuit now) (record s { skip_next = true })
            (opened_circuit-IsStorable now n) k')
      | inr t ↦ rw t (
          set_capability_circuit-IsKept (closed_circuit now) (record s { skip_next = true })
            (closed_circuit-IsStorable now n) k')
    ]

count_outcome-IsKept :
    (messages : List Value) (now : ℕ) (s : Session)
    → now ≤ max_safe_integer
    → IsKept s
    → IsKept (count_outcome messages now s)
count_outcome-IsKept messages now s n k =
    if-IsKept s.skip_next _ _
      (record { circuit = k.circuit; pause = k.pause; storable = k.storable })
      (set_capability_circuit-IsKept
        (advance_capability_circuit s.circuit (capability_outcome messages) now) s
        (advance-IsStorable s.circuit (capability_outcome messages) now n k.storable) k)

agent_end-IsKept :
    (messages : List Value) (reload_pending : Bool) (now : ℕ) (s : Session)
    → now ≤ max_safe_integer
    → IsKept s
    → IsKept (agent_end messages reload_pending now s)
unfolding agent_end
agent_end-IsKept messages reload_pending now s n k =
    if-IsKept (was_run_aborted messages && not reload_pending) _ _
      (count_outcome-IsKept messages now (set_continuation_paused true now s) n
        (set_continuation_paused-IsKept true now s k))
      (count_outcome-IsKept messages now s n k)

logs-IsKept :
    (entry : Value) (s : Session)
    → is_circuit_entry entry ≡ false
    → is_pause_entry entry ≡ false
    → IsKept s
    → IsKept (record s { log = s.log ++ entry ∷ [] })
unfolding restore_capability_circuit is_continuation_paused latest_continuation_pause
logs-IsKept entry s c p k = record {
  circuit = ap found_circuit (find-older is_circuit_entry s.log entry c) ∙ k.circuit;
  pause = ap (λ o. pauses (o >>= parse_entry)) (find-older is_pause_entry s.log entry p) ∙ k.pause;
  storable = k.storable;
}

Step-IsKept :
    (now : ℕ) (s t : Session) → now ≤ max_safe_integer → Step now s t → IsKept s → IsKept t
Step-IsKept now s _ n (restarts tools) k = session_start-IsKept tools now s n
Step-IsKept now s _ n (takes_input i text tools) k = input-IsKept i text tools now s n k
Step-IsKept now s _ n resumes k = set_continuation_paused-IsKept false now s k
Step-IsKept now s _ n (shakes_hands failed) k = handshake-IsKept failed now s n k
Step-IsKept now s _ n (ends_turn messages r) k = agent_end-IsKept messages r now s n k
Step-IsKept now s _ n saves k = circuit-IsKept s.circuit s k.storable k
Step-IsKept now s _ n (logs entry c p) k = logs-IsKept entry s c p k

-- At every point of every run, in any order of restarts, inputs, handshakes and ends of turns, and on
-- whatever log the session started, the session log restores exactly the circuit and the pause that
-- the session has, and the circuit is open exactly where it counts two blockers.
pub Reached-IsKept : (s : Session) → Reached s → IsKept s
Reached-IsKept _ (starts log tools now n) = session_start-IsKept tools now (fresh log) n
Reached-IsKept _ (goes_on now s t r n step) = Step-IsKept now s t n step (Reached-IsKept s r)
