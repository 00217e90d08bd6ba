-- ===== src/Rpc/Runs.antt =====
-- The runs of a connection of pi/extensions/lsp/json-rpc.ts: every order of its input, its callers'
-- operations, its timers and its streams' events.
use metagenda.Base.{ℕ, ◌<◌, ◌≡◌, inl, inr, true, In, Outcome, refl, subst, arith}
use metagenda.Base.Text.{Text}
use metagenda.Base.Value.{Value}
use metagenda.Rpc.Types.{Bytes, Host, JsonRpcId, Connection}
use metagenda.Rpc.Link.{handle_drain, input_failed, input_ended, output_failed, dispose}
use metagenda.Rpc.Dispatch.{request, timed_out, interrupted, notify, answered}
use metagenda.Rpc.Connection.{connect, empty_link, handle_data, operate}
use metagenda.Rpc.Accounts.{ids, Settled}
use metagenda.Rpc.Sound.{
  IsSound, fail_all-IsSound, handle_data-IsSound, timed_out-IsSound, interrupted-IsSound,
  request-IsSound, notify-IsSound, answered-IsSound, handle_drain-IsSound,
}

-- What can happen to a connection. An answer comes for whatever ID the handler was asked under, a
-- timer or an interruption for whatever request.
pub data Happening : Type 0 where
  data_in : Bytes → Happening
  requests : Text → Value → Happening
  times_out : ℕ → ℕ → Happening
  interrupts : ℕ → Happening
  notifies : Text → Value → Happening
  answers : JsonRpcId → Outcome Text Value → Happening
  drains fails_input ends_input fails_output : Happening
  disposes : Text → Happening

module _ (host : Host) where
  unfoldable pub perform : Happening → Connection → Connection
  perform (data_in chunk) c = handle_data host chunk c
  perform (requests method params) c = operate (λ l. (request host method params l).0) c
  perform (times_out id ms) c = operate (timed_out host id ms) c
  perform (interrupts id) c = operate (interrupted host id) c
  perform (notifies method params) c = operate (λ l. (notify host method params l).0) c
  perform (answers id r) c = operate (answered host id r) c
  perform drains c = operate (handle_drain host) c
  perform fails_input c = operate input_failed c
  perform ends_input c = operate input_ended c
  perform fails_output c = operate output_failed c
  perform (disposes reason) c = operate (dispose reason) c

  -- The connections that come about.
  pub data Reached : Connection → Type 0 where
    starts : Reached connect
    goes_on : (h : Happening) (c : Connection) → Reached c → Reached (perform h c)

  perform-IsSound : (h : Happening) (c : Connection) → IsSound c.link → IsSound (perform h c).link
  unfolding perform
  perform-IsSound (data_in chunk) c s = handle_data-IsSound host chunk c s
  perform-IsSound (requests method params) c s = request-IsSound host method params c.link s
  perform-IsSound (times_out id ms) c s = timed_out-IsSound host id ms c.link s
  perform-IsSound (interrupts id) c s = interrupted-IsSound host id c.link s
  perform-IsSound (notifies method params) c s = notify-IsSound host method params c.link s
  perform-IsSound (answers id r) c s = answered-IsSound host id r c.link s
  perform-IsSound drains c s = handle_drain-IsSound host c.link s
  perform-IsSound fails_input c s = fail_all-IsSound _ c.link s
  perform-IsSound ends_input c s = fail_all-IsSound _ c.link s
  perform-IsSound fails_output c s = fail_all-IsSound _ c.link s
  perform-IsSound (disposes reason) c s = fail_all-IsSound _ c.link s

  connect-IsSound : IsSound empty_link
  connect-IsSound = record {
    queue = record { counted = refl; bounded = omega arith; cleared = λ c. absurd (cc) };
    accounts = λ id z n. absurd (omega arith);
  }

  -- At every point of every run, in any order of input, calls, timers and stream events, each request
  -- that was given an ID is pending or was answered, failed or interrupted, and the outbound queue's
  -- count of bytes is exact and within its limit, and zero on a closed connection.
  pub Reached-IsSound : (c : Connection) → Reached c → IsSound c.link
  Reached-IsSound _ starts = connect-IsSound
  Reached-IsSound _ (goes_on h c r) = perform-IsSound h c (Reached-IsSound c r)

  -- Once a run has closed the connection, by whatever cause, no request hangs: each ID that was given
  -- out has been answered, failed or interrupted.
  pub closed-Settled :
      (c : Connection)
      → Reached c
      → c.link.is_closed ≡ true
      → (id : ℕ) → 0 < id
      → id < c.link.next_id
      → Settled id c.link.events
  closed-Settled c r e id z n =
      let s = Reached-IsSound c r in
      let none_left = (s.queue.cleared e).1 in
      elim (s.accounts id z n) [
        | inl k ↦ absurd (omega arith)
        | inr (inl m) ↦ elim (subst (λ ps. In id (ids ps)) none_left m) [ ]
        | inr (inr h) ↦ h
      ]
