-- ===== src/Race/Steps.antt =====
-- The calls by which a worker of src/race.c keeps step with its partner: what each part of its loop adds
-- to them.
use gatebench.Base.{
  ℕ, zero, suc, ◌≡◌, ◌∙◌, refl, ap, sym, subst, Bool, true, false, not, ◌&&◌, Option, none, some,
  List, [], ◌∷◌, ◌++◌, append_assoc, Bool-cases, inl, inr, if◌then◌else◌,
}
use gatebench.Bench.Act.{Result, ok, err, Act, then_act, pure, ◌>>=◌, ◌>>◌}
use gatebench.Race.Thread.{
  SyncCall, started, ended, signalled, Thread, race_sync_start, race_sync_end,
  race_sync_signal_exit, enter, leave, signal_exit, race_sync_exit_requested, while_racing, at_out,
}

-- So many races, each entered and left, before which the calls of l were made.
abbrev pub rounds : ℕ → Bool → ℕ → List SyncCall → List SyncCall
rounds k is_a zero l = l
rounds k is_a (suc n) l = ended k is_a ∷ started k is_a ∷ rounds k is_a n l

rounds_behind :
    (k : ℕ) (is_a : Bool) (n : ℕ) (l : List SyncCall)
    → rounds k is_a n (ended k is_a ∷ started k is_a ∷ l) ≡ rounds k is_a (suc n) l
rounds_behind k is_a zero l = refl
rounds_behind k is_a (suc n) l =
    ap (λ r. ended k is_a ∷ started k is_a ∷ r) (rounds_behind k is_a n l)

module _ {Buf : Type 0} (k : ℕ) (is_a : Bool) where
  abbrev pub HasSeat : Thread Buf → Type 0
  HasSeat t = t.ctx.seat ≡ some (k, is_a)

  -- The action comes to its leave, or waits, has made these calls, and keeps its pair and side.
  abbrev pub AddsAt :
      {A : Type 0} → List SyncCall → Thread Buf → Option (Result A × Thread Buf) → Type 0
  AddsAt calls t none = Unit
  AddsAt calls t (some (ok x, u)) = (u.log ≡ calls ++ t.log) × HasSeat u
  AddsAt calls t (some (err e, u)) = ⊥

  pub record Adds {A : Type 0} (calls : List SyncCall) (x : Act (Thread Buf) A) : Type 0 where
    pub adds : (t : Thread Buf) → HasSeat t → AddsAt calls t (x t)

  AddsAt-behind :
      {A : Type 0} (c d : List SyncCall) (t u : Thread Buf) (o : Option (Result A × Thread Buf))
      → u.log ≡ c ++ t.log
      → AddsAt d u o
      → AddsAt (d ++ c) t o
  AddsAt-behind c d t u none e h = tt
  AddsAt-behind c d t u (some (ok x, v)) e h =
      (h.0 ∙ ap (λ l. d ++ l) e ∙ sym (append_assoc d c t.log), h.1)
  AddsAt-behind c d t u (some (err x, v)) e h = h

  then_act-AddsAt :
      {A B : Type 0} (c d : List SyncCall) (t : Thread Buf) (o : Option (Result A × Thread Buf))
      (f : A → Act (Thread Buf) B)
      → AddsAt c t o
      → ((a : A) → Adds d (f a))
      → AddsAt (d ++ c) t (then_act o f)
  then_act-AddsAt c d t none f h g = tt
  then_act-AddsAt c d t (some (ok a, u)) f h g =
      AddsAt-behind c d t u (f a u) h.0 ((g a).adds u h.1)
  then_act-AddsAt c d t (some (err e, u)) f h g = absurd h

  pub bind-Adds :
      {A B : Type 0} (c d : List SyncCall) {x : Act (Thread Buf) A} {f : A → Act (Thread Buf) B}
      → Adds c x
      → ((a : A) → Adds d (f a))
      → Adds (d ++ c) (x >>= f)
  bind-Adds c d {x} {f} h g = record { adds = λ t s. then_act-AddsAt c d t (x t) f (h.adds t s) g }

  -- An action that makes no call, before any other.
  pub quiet_then :
      {A B : Type 0} (d : List SyncCall) {x : Act (Thread Buf) A} {f : A → Act (Thread Buf) B}
      → Adds [] x
      → ((a : A) → Adds d (f a))
      → Adds (d ++ []) (x >>= f)
  quiet_then d h g = bind-Adds [] d h g

  pub quietly :
      {A B : Type 0} {x : Act (Thread Buf) A} {f : A → Act (Thread Buf) B}
      → Adds [] x
      → ((a : A) → Adds [] (f a))
      → Adds [] (x >>= f)
  quietly h g = bind-Adds [] [] h g

  pub pure-Adds : {A : Type 0} (x : A) → Adds [] (pure x)
  pure-Adds x = record { adds = λ t s. (refl, s) }

  pub if-Adds :
      {A : Type 0} (c : Bool) {x y : Act (Thread Buf) A} (calls : List SyncCall)
      → Adds calls x
      → Adds calls y
      → Adds calls (if c then x else y)
  if-Adds true calls h g = h
  if-Adds false calls h g = g

  pub race_sync_start-Adds : Adds (started k is_a ∷ []) race_sync_start
  unfolding race_sync_start
  race_sync_start-Adds = record {
    adds = λ t s.
        subst (λ seat. AddsAt (started k is_a ∷ []) t (some (ok tt, enter seat t))) (sym s)
          (refl, s);
  }

  pub race_sync_end-Adds : Adds (ended k is_a ∷ []) race_sync_end
  unfolding race_sync_end
  race_sync_end-Adds = record {
    adds = λ t s.
        subst (λ seat. AddsAt (ended k is_a ∷ []) t (some (ok tt, leave seat t))) (sym s) (refl, s);
  }

  -- A round of a loop: one race, entered and then left.
  abbrev pub IsRound : {A : Type 0} → Act (Thread Buf) A → Type 0
  IsRound x = Adds (ended k is_a ∷ started k is_a ∷ []) x

  -- Within a race: nothing is called but its leave.
  pub ended_then :
      {A : Type 0} {y : Act (Thread Buf) A}
      → Adds [] y
      → Adds (ended k is_a ∷ []) (race_sync_end >> y)
  ended_then h = bind-Adds (ended k is_a ∷ []) [] race_sync_end-Adds (λ u. h)

  pub started_then :
      {A : Type 0} {y : Act (Thread Buf) A}
      → Adds (ended k is_a ∷ []) y
      → IsRound (race_sync_start >> y)
  started_then h = bind-Adds (started k is_a ∷ []) (ended k is_a ∷ []) race_sync_start-Adds (λ u. h)

  -- What a loop of rounds makes of the calls; it may also still run.
  abbrev pub Loops : {A : Type 0} → List SyncCall → Option (Result A × Thread Buf) → Type 0
  Loops l none = Unit
  Loops l (some (ok x, u)) = (n : ℕ) × (u.log ≡ rounds k is_a n l) × HasSeat u
  Loops l (some (err e, u)) = ⊥

  Loops-behind :
      {A : Type 0} (l : List SyncCall) (o : Option (Result A × Thread Buf))
      → Loops (ended k is_a ∷ started k is_a ∷ l) o
      → Loops l o
  Loops-behind l none h = tt
  Loops-behind l (some (ok x, u)) (n, e, s) = (suc n, e ∙ rounds_behind k is_a n l, s)
  Loops-behind l (some (err e, u)) h = h

  round-Loops :
      {A B : Type 0} (t : Thread Buf) (o : Option (Result A × Thread Buf))
      (f : A → Act (Thread Buf) B)
      → AddsAt (ended k is_a ∷ started k is_a ∷ []) t o
      → ((a : A) (u : Thread Buf) → HasSeat u → Loops u.log (f a u))
      → Loops t.log (then_act o f)
  round-Loops t none f h g = tt
  round-Loops t (some (ok a, u)) f h g =
      Loops-behind t.log (f a u) (subst (λ l. Loops l (f a u)) h.0 (g a u h.1))
  round-Loops t (some (err e, u)) f h g = absurd h

  -- A loop whose body is a round makes whole rounds, however often it is run.
  pub while_racing-Loops :
      {A : Type 0} {body : A → Act (Thread Buf) A} (polls : List (Bool × Bool)) (a : A)
      (t : Thread Buf)
      → ((x : A) → IsRound (body x))
      → HasSeat t
      → Loops t.log (while_racing body polls a t)
  unfolding while_racing
  while_racing-Loops [] a t h s = tt
  while_racing-Loops {body = body} ((stop, exit) ∷ polls) a t h s =
      elim (Bool-cases (not stop && not (race_sync_exit_requested t.ctx.seat exit))) [
        | inl e ↦
            rw (while_racing, e)
              (round-Loops t (body a t) (while_racing body polls) ((h a).adds t s)
                (λ x u s'. while_racing-Loops polls x u h s'))
        | inr e ↦ rw (while_racing, e) (zero, refl, s)
      ]

  -- A thread up to its label `out`: whole rounds, or none if it gives up before its loop.
  abbrev pub Arrives : {A : Type 0} → List SyncCall → Option (Result A × Thread Buf) → Type 0
  Arrives l none = Unit
  Arrives l (some (r, u)) = (n : ℕ) × (u.log ≡ rounds k is_a n l) × HasSeat u

  pub Arrives-loop :
      {A : Type 0} (l : List SyncCall) (o : Option (Result A × Thread Buf))
      → Loops l o
      → Arrives l o
  Arrives-loop l none h = tt
  Arrives-loop l (some (ok x, u)) h = h
  Arrives-loop l (some (err e, u)) h = absurd h

  -- What comes before the loop: it makes no call, and may give up.
  abbrev pub SetsAt : {A : Type 0} → Thread Buf → Option (Result A × Thread Buf) → Type 0
  SetsAt t none = Unit
  SetsAt t (some (r, u)) = (u.log ≡ t.log) × HasSeat u

  pub record Sets {A : Type 0} (x : Act (Thread Buf) A) : Type 0 where
    pub sets : (t : Thread Buf) → HasSeat t → SetsAt t (x t)

  then_act-Arrives :
      {A B : Type 0} (t : Thread Buf) (o : Option (Result A × Thread Buf))
      (f : A → Act (Thread Buf) B)
      → SetsAt t o
      → ((a : A) (u : Thread Buf) → HasSeat u → Arrives u.log (f a u))
      → Arrives t.log (then_act o f)
  then_act-Arrives t none f h g = tt
  then_act-Arrives t (some (ok a, u)) f h g = subst (λ l. Arrives l (f a u)) h.0 (g a u h.1)
  then_act-Arrives t (some (err e, u)) f h g = (zero, h.0, h.1)

  pub record Comes {A : Type 0} (x : Act (Thread Buf) A) : Type 0 where
    pub comes : (t : Thread Buf) → HasSeat t → Arrives t.log (x t)

  pub set_up :
      {A B : Type 0} {x : Act (Thread Buf) A} {f : A → Act (Thread Buf) B}
      → Sets x
      → ((a : A) → Comes (f a))
      → Comes (x >>= f)
  set_up {x = x} {f = f} h g = record {
    comes = λ t s. then_act-Arrives t (x t) f (h.sets t s) (λ a u s'. (g a).comes u s');
  }

  pub while_racing-Comes :
      {A : Type 0} {body : A → Act (Thread Buf) A} (polls : List (Bool × Bool)) (a : A)
      → ((x : A) → IsRound (body x))
      → Comes (while_racing body polls a)
  while_racing-Comes {body = body} polls a h = record {
    comes =
        λ t s. Arrives-loop t.log (while_racing body polls a t) (while_racing-Loops polls a t h s);
  }

  -- The leave of a thread: whole rounds, and then the partner is told.
  abbrev pub Signals : List SyncCall → Option (Thread Buf) → Type 0
  Signals l none = Unit
  Signals l (some u) = (n : ℕ) × (u.log ≡ signalled k ∷ rounds k is_a n l)

  out-Signals :
      {A : Type 0} (l : List SyncCall) (o : Option (Result A × Thread Buf))
      → Arrives l o
      → Signals l (at_out o)
  unfolding race_sync_signal_exit
  out-Signals l none h = tt
  out-Signals l (some (r, u)) (n, e, s) = (
    n,
    subst (λ seat. (signal_exit seat u).log ≡ signalled k ∷ rounds k is_a n l) (sym s)
        (ap (λ q. signalled k ∷ q) e),
  )

  pub thread-Signals :
      {A : Type 0} {x : Act (Thread Buf) A} (t : Thread Buf)
      → Comes x
      → HasSeat t
      → Signals t.log (at_out (x t))
  thread-Signals {x = x} t h s = out-Signals t.log (x t) (h.comes t s)
