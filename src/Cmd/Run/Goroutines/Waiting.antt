-- ===== src/Cmd/Run/Goroutines/Waiting.antt =====
-- cmd/decision-gateway/main.go: what the goroutines of `run` wait for, and what `run` returns.
use decision_gateway.Prelude.{
  ℕ, ◌+◌, ◌≤◌, ◌<◌, ◌≡◌, refl, sym, subst, ◌≢◌, ◌⊎◌, inl, inr, Bool, true, false, Option, none,
  some, List, [], arith, Bool-cases, List-cases, length, Text,
}
use decision_gateway.World.{World, Handler}
use decision_gateway.Cmd.Run.{server_failure}
use decision_gateway.Cmd.Run.Goroutines.{
  ListenError, server_result, Server, listening, sending, sent, Stage, sleeping, awake, selecting,
  cancelled, received, shutting_down, ended, Goroutines, capacity, Tick, wake, ready, done, receive,
  unready, give_up, time_out, Ticks, gave,
}
use decision_gateway.Cmd.Run.Goroutines.Feeding.{Sends, Takes, Ticks-IsFed}

-- The most stages that `run` still goes through.
abbrev pub stages_left : Stage → ℕ
stages_left sleeping = 5
stages_left awake = 4
stages_left selecting = 3
stages_left cancelled = 2
stages_left (received v) = 1
stages_left shutting_down = 1
stages_left (ended e) = 0

-- What the goroutine of the server is about to send.
abbrev pub unsent : Server → ℕ
unsent listening = 0
unsent (sending v) = 1
unsent sent = 0

-- A step of `run` itself can be taken.
abbrev pub MovesOn : Handler → Goroutines → Type 0
MovesOn h c = (d : Goroutines) × Tick h c d × (stages_left d.stage < stages_left c.stage)

-- `run` waits in its select, and has cause to: no signal came, and nothing was sent.
abbrev pub Waits : Goroutines → Type 0
Waits c = (c.stage ≡ selecting) × (c.is_done ≡ false) × (c.server_err ≡ []) × (c.server ≢ sent)

-- `run` returns nil after a signal, or an error exactly if ListenAndServe returned it.
abbrev pub Returns : Stage → Option (Option ListenError) → Bool → Type 0
Returns (ended e) g d =
    ((d ≡ true) × (e ≡ none))
    ⊎ ((r : Option ListenError) × (g ≡ some r) × (e ≡ server_failure (server_result r)))
Returns _ g d = Unit

Takes-Returns :
    (st : Stage) (srv : Server) (g : Option (Option ListenError)) (vs : List (Option Text))
    (d : Bool)
    → Takes st srv g vs d
    → Returns st g d
Takes-Returns (ended e) srv g vs d t = t
Takes-Returns sleeping srv g vs d t = tt
Takes-Returns awake srv g vs d t = tt
Takes-Returns selecting srv g vs d t = tt
Takes-Returns cancelled srv g vs d t = tt
Takes-Returns (received v) srv g vs d t = tt
Takes-Returns shutting_down srv g vs d t = tt

Sends-room :
    (srv : Server) (g : Option (Option ListenError)) (vs : List (Option Text))
    → Sends srv g vs
    → length vs + unsent srv ≤ capacity
Sends-room listening g vs (_, e) = rw e (omega arith)
Sends-room (sending v) g vs (_, e) = rw e (omega arith)
Sends-room sent g vs (r, _, inl e) = rw e (omega arith)
Sends-room sent g vs (r, _, inr e) = rw e (omega arith)

module _ (h : Handler) (c : Goroutines) where
  moves_to :
      (st : Stage) (d : Goroutines)
      → c.stage ≡ st
      → Tick h c d
      → stages_left d.stage < stages_left st
      → MovesOn h c
  moves_to st d e t less = (d, t, subst (λ x. stages_left d.stage < stages_left x) (sym e) less)

  select : c.stage ≡ selecting → (c.server ≡ sent → c.server_err ≢ []) → MovesOn h c ⊎ Waits c
  select e takes = elim (Bool-cases c.is_done) [
    | inl is ↦ inl (moves_to selecting _ e (done e is) (omega arith))
    | inr unset ↦ elim (List-cases c.server_err) [
      | inl empty ↦ inr (e, unset, empty, λ is. takes is empty)
      | inr (v, vs, full) ↦ inl (moves_to selecting _ e (receive v vs e full) (omega arith))
    ]
  ]

  move_on :
      (st : Stage)
      → c.stage ≡ st
      → (g : Option (Option ListenError)) → Takes st c.server g c.server_err c.is_done
      → (stages_left st ≡ 0) ⊎ (MovesOn h c ⊎ Waits c)
  move_on sleeping e g t = inr (inl (moves_to sleeping _ e (wake e) (omega arith)))
  move_on awake e g t = inr (inl (moves_to awake _ e (ready e) (omega arith)))
  move_on selecting e g t = inr (select e t)
  move_on cancelled e g t = inr (inl (moves_to cancelled _ e (unready e) (omega arith)))
  move_on (received v) e g t = inr (inl (moves_to (received v) _ e (give_up v e) (omega arith)))
  move_on shutting_down e g t = inr (inl (moves_to shutting_down _ e (time_out e) (omega arith)))
  move_on (ended error) e g t = inl refl

-- However the two goroutines of `run`, the requests and a signal interleave: the channel has room
-- for what the goroutine of the server is about to send, so that the send does not block; `run` has
-- ended, or can take a step that brings it nearer to its end, or waits in its select while no
-- signal came and nothing was sent; and if it has ended, it returned nil after a signal, or the
-- error of ListenAndServe, where http.ErrServerClosed counts as none.
pub run_waits :
    (h : Handler) (s : World) (c : Goroutines) (ts : Ticks h s c)
    → (length c.server_err + unsent c.server ≤ capacity)
      × ((stages_left c.stage ≡ 0) ⊎ (MovesOn h c ⊎ Waits c))
      × Returns c.stage (gave ts) c.is_done
run_waits h s c ts =
    let i = Ticks-IsFed h s ts in
    (
      Sends-room c.server (gave ts) c.server_err i.sends,
      move_on h c c.stage refl (gave ts) i.takes,
      Takes-Returns c.stage c.server (gave ts) c.server_err c.is_done i.takes,
    )
