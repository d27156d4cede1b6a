-- ===== src/Cmd/Run/Goroutines/Feeding.antt =====
-- cmd/decision-gateway/main.go: what the goroutine of the server sends, and what `run` makes of it.
use decision_gateway.Prelude.{
  ◌≡◌, refl, sym, ap, ◌∙◌, subst, ◌≢◌, ◌⊎◌, inl, inr, Bool, true, Option, none, some, List, [], ◌∷◌,
  ◌++◌, Text,
}
use decision_gateway.World.{World, Handler}
use decision_gateway.Cmd.Run.{server_failure}
use decision_gateway.Cmd.Run.Goroutines.{
  ListenError, server_result, Server, listening, sending, sent, Stage, sleeping, awake, selecting,
  cancelled, received, shutting_down, ended, Goroutines, launch, signal, listen_and_serve, send,
  wake, ready, done, receive, unready, shut_down, give_up, accept, answer, time_out, Ticks, begin,
  tick, gave,
}

-- Where the goroutine of the server stands, what it has returned, what the channel holds, and
-- whether `run` has received.
abbrev pub Sends : Server → Option (Option ListenError) → List (Option Text) → Type 0
Sends listening g vs = (g ≡ none) × (vs ≡ [])
Sends (sending v) g vs =
    ((r : Option ListenError) × (g ≡ some r) × (server_result r ≡ v)) × (vs ≡ [])
Sends sent g vs =
    (r : Option ListenError) × (g ≡ some r) × ((vs ≡ []) ⊎ (vs ≡ server_result r ∷ []))

-- What `run` returns, or has received, is what the goroutine of the server sent, or nil after a
-- signal.
abbrev pub Takes : Stage → Server → Option (Option ListenError) → List (Option Text) → Bool → Type 0
Takes sleeping srv g vs d = srv ≡ sent → vs ≢ []
Takes awake srv g vs d = srv ≡ sent → vs ≢ []
Takes selecting srv g vs d = srv ≡ sent → vs ≢ []
Takes cancelled srv g vs d = d ≡ true
Takes (received v) srv g vs d = (r : Option ListenError) × (g ≡ some r) × (server_result r ≡ v)
Takes shutting_down srv g vs d = d ≡ true
Takes (ended e) srv g vs d =
    ((d ≡ true) × (e ≡ none))
    ⊎ ((r : Option ListenError) × (g ≡ some r) × (e ≡ server_failure (server_result r)))

pub record IsFed (c : Goroutines) (g : Option (Option ListenError)) : Type 0 where
  pub sends : Sends c.server g c.server_err
  pub takes : Takes c.stage c.server g c.server_err c.is_done

module _ (c : Goroutines) (g : Option (Option ListenError)) where
  Takes-signal :
      (st : Stage)
      → Takes st c.server g c.server_err c.is_done
      → Takes st c.server g c.server_err true
  Takes-signal sleeping t = t
  Takes-signal awake t = t
  Takes-signal selecting t = t
  Takes-signal cancelled t = refl
  Takes-signal (received v) t = t
  Takes-signal shutting_down t = refl
  Takes-signal (ended e) (inl t) = inl (refl, t.1)
  Takes-signal (ended e) (inr t) = inr t

  Takes-listen :
      (st : Stage) (r : Option ListenError)
      → g ≡ none
      → Takes st c.server g c.server_err c.is_done
      → Takes st (sending (server_result r)) (some r) c.server_err c.is_done
  Takes-listen sleeping r n t = λ e. cc
  Takes-listen awake r n t = λ e. cc
  Takes-listen selecting r n t = λ e. cc
  Takes-listen cancelled r n t = t
  Takes-listen (received v) r n (r', gave, same) = absurd (cc (n, gave))
  Takes-listen shutting_down r n t = t
  Takes-listen (ended e) r n (inl t) = inl t
  Takes-listen (ended e) r n (inr (r', gave, same)) = absurd (cc (n, gave))

  Takes-send :
      (st : Stage) (v : Option Text)
      → Takes st c.server g c.server_err c.is_done
      → Takes st sent g (v ∷ []) c.is_done
  Takes-send sleeping v t = λ e. cc
  Takes-send awake v t = λ e. cc
  Takes-send selecting v t = λ e. cc
  Takes-send cancelled v t = t
  Takes-send (received w) v t = t
  Takes-send shutting_down v t = t
  Takes-send (ended e) v t = t

at_stage :
    {c : Goroutines} {g : Option (Option ListenError)} (st : Stage)
    → c.stage ≡ st
    → IsFed c g
    → Takes st c.server g c.server_err c.is_done
at_stage {c} {g} st e i = subst (λ x. Takes x c.server g c.server_err c.is_done) e i.takes

at_server :
    {c : Goroutines} {g : Option (Option ListenError)} (srv : Server)
    → c.server ≡ srv
    → IsFed c g
    → Sends srv g c.server_err
at_server {c} {g} srv e i = subst (λ x. Sends x g c.server_err) e i.sends

-- A value in the channel is the one that ListenAndServe's result was turned into.
Sends-head :
    (srv : Server) {g : Option (Option ListenError)} {vs ws : List (Option Text)} {v : Option Text}
    → Sends srv g vs
    → vs ≡ v ∷ ws
    → (srv ≡ sent) × (ws ≡ []) × ((r : Option ListenError) × (g ≡ some r) × (server_result r ≡ v))
Sends-head listening s e = absurd (cc (s.1, e))
Sends-head (sending w) s e = absurd (cc (s.1, e))
Sends-head sent (r, g, inl n) e = absurd (cc (n, e))
Sends-head sent (r, g, inr n) e = (refl, cc (n, e), (r, g, cc (n, e)))

module _ (h : Handler) (s : World) where
  pub Ticks-IsFed : {c : Goroutines} (ts : Ticks h s c) → IsFed c (gave ts)
  unfolding launch
  Ticks-IsFed begin = record { sends = (refl, refl); takes = λ e. cc }
  Ticks-IsFed (tick ts (signal {c})) =
      let i = Ticks-IsFed ts in
      record { sends = i.sends; takes = Takes-signal c (gave ts) c.stage i.takes }
  Ticks-IsFed (tick ts (listen_and_serve {c} r e)) =
      let i = Ticks-IsFed ts in
      let now = at_server listening e i in
      record {
        sends = ((r, refl, refl), now.1);
        takes = Takes-listen c (gave ts) c.stage r now.0 i.takes;
      }
  Ticks-IsFed (tick ts (send {c} v e room)) =
      let i = Ticks-IsFed ts in
      let ((r, g, same), empty) = at_server (sending v) e i in
      record {
        sends = (r, g, inr (ap (λ l. l ++ (v ∷ [])) empty ∙ ap (λ x. x ∷ []) (sym same)));
        takes =
            subst (λ l. Takes c.stage sent (gave ts) (l ++ (v ∷ [])) c.is_done) (sym empty)
              (Takes-send c (gave ts) c.stage v i.takes);
      }
  Ticks-IsFed (tick ts (wake {c} e)) =
      let i = Ticks-IsFed ts in record { sends = i.sends; takes = at_stage sleeping e i }
  Ticks-IsFed (tick ts (ready {c} e)) =
      let i = Ticks-IsFed ts in record { sends = i.sends; takes = at_stage awake e i }
  Ticks-IsFed (tick ts (done {c} e is)) =
      let i = Ticks-IsFed ts in record { sends = i.sends; takes = is }
  Ticks-IsFed (tick ts (receive {c} v vs e e')) =
      let i = Ticks-IsFed ts in
      let (is, empty, (r, g, same)) = Sends-head c.server i.sends e' in
      record {
        sends = subst (λ x. Sends x (gave ts) vs) (sym is) (r, g, inl empty);
        takes = (r, g, same);
      }
  Ticks-IsFed (tick ts (unready {c} e)) =
      let i = Ticks-IsFed ts in record { sends = i.sends; takes = at_stage cancelled e i }
  Ticks-IsFed (tick ts (shut_down {c} e e')) =
      let i = Ticks-IsFed ts in
      record { sends = i.sends; takes = inl (at_stage shutting_down e i, refl) }
  Ticks-IsFed (tick ts (time_out {c} e)) =
      let i = Ticks-IsFed ts in
      record { sends = i.sends; takes = inl (at_stage shutting_down e i, refl) }
  Ticks-IsFed (tick ts (give_up {c} v e)) =
      let i = Ticks-IsFed ts in
      let (r, g, same) = at_stage (received v) e i in
      record { sends = i.sends; takes = inr (r, g, ap server_failure (sym same)) }
  Ticks-IsFed (tick ts (accept r e)) =
      let i = Ticks-IsFed ts in record { sends = i.sends; takes = i.takes }
  Ticks-IsFed (tick ts (answer before after r w e e')) =
      let i = Ticks-IsFed ts in record { sends = i.sends; takes = i.takes }
