-- ===== src/Race/Quiet.antt =====
-- The calls of a worker of src/race.c that leave the pair alone, and those by which it gives up.
use gatebench.Base.{
  ℕ, refl, Bool, true, false, Option, none, some, List, [], ◌∷◌, ℤ, is_neg, Bool-cases, inl, inr,
  if◌then◌else◌, Option-cases,
}
use gatebench.Mnl.{Mnl}
use gatebench.Gate.Types.{GateEntry, NlMsg}
use gatebench.Nl.{NlSock}
use gatebench.Nl.Open.{Opening, gb_nl_open}
use gatebench.Nl.Exchange.{Message, World, Exchanged, Answer}
use gatebench.Bench.Act.{Result, ok, err, Act}
use gatebench.Race.{race_fill_entries}
use gatebench.Race.Thread.{
  Thread, count_op, record_err, record_err_if, give_up, or_out, draw, clock_read, clock_now, fill,
  returned, exchanged, record_nl_error, record_nl_error_if, built_with, opened, open_socket,
}
use gatebench.Race.Steps.{HasSeat, AddsAt, Adds, pure-Adds, if-Adds, SetsAt, Sets}

module _ {Buf : Type 0} (k : ℕ) (is_a : Bool) where
  abbrev pub Quiet : {A : Type 0} → Act (Thread Buf) A → Type 0
  Quiet x = Adds k is_a [] x

  pub count_op-Quiet : Quiet count_op
  count_op-Quiet = record { adds = λ t s. (refl, s) }

  pub record_err-Quiet : (ret : ℤ) → Quiet (record_err ret)
  unfolding record_err
  record_err-Quiet ret = record { adds = λ t s. (refl, s) }

  pub record_err_if-Quiet : (c : Bool) (ret : ℤ) → Quiet (record_err_if c ret)
  record_err_if-Quiet c ret = if-Adds k is_a c [] (record_err-Quiet ret) (pure-Adds k is_a tt)

  pub draw-Quiet : (max : ℕ) → Quiet (draw max)
  unfolding draw
  draw-Quiet max = record { adds = λ t s. (refl, s) }

  pub clock_now-Quiet : Quiet clock_now
  unfolding clock_now
  clock_now-Quiet = record {
    adds = λ t s. elim (Option-cases (clock_read t.scene.clocks)) [
      | inl e ↦ rw (clock_now, e) tt
      | inr (r, e) ↦ rw (clock_now, e) (refl, s)
    ];
  }

  pub fill-Quiet : (es : List GateEntry) (most longest : ℕ) → Quiet (fill es most longest)
  unfolding fill
  fill-Quiet es most longest = record {
    adds = λ t s. elim (Option-cases (race_fill_entries es most longest t.ctx.seed)) [
      | inl e ↦ rw (fill, e) tt
      | inr (r, e) ↦ rw (fill, e) (refl, s)
    ];
  }

  -- An action that the thread gives up by.
  abbrev pub Settles : {A : Type 0} → Act (Thread Buf) A → Type 0
  Settles x = Sets k is_a x

  AddsAt-SetsAt :
      {A : Type 0} (t : Thread Buf) (o : Option (Result A × Thread Buf))
      → AddsAt k is_a [] t o
      → SetsAt k is_a t o
  AddsAt-SetsAt t none h = tt
  AddsAt-SetsAt t (some (ok a, u)) h = h
  AddsAt-SetsAt t (some (err e, u)) h = absurd h

  pub Quiet-Settles : {A : Type 0} {x : Act (Thread Buf) A} → Quiet x → Settles x
  Quiet-Settles {x = x} h = record { sets = λ t s. AddsAt-SetsAt t (x t) (h.adds t s) }

  pub give_up-Settles : {A : Type 0} (ret : ℤ) → Settles (give_up {A = A} ret)
  unfolding record_err
  give_up-Settles ret = record { sets = λ t s. (refl, s) }

  pub or_out-Settles : {A : Type 0} (o : Option A) → Settles (or_out o)
  or_out-Settles none = give_up-Settles _
  or_out-Settles (some a) = Quiet-Settles (pure-Adds k is_a a)

  pub if-Settles :
      {A : Type 0} (c : Bool) {x y : Act (Thread Buf) A}
      → Settles x
      → Settles y
      → Settles (if c then x else y)
  if-Settles true h g = h
  if-Settles false h g = g

module _ (m : Mnl) (k : ℕ) (is_a : Bool) where
  open m use {Buf}

  returned-AddsAt :
      (msg : Message Buf) (x : Exchanged Buf (Answer m)) (t : Thread Buf)
      → HasSeat k is_a t
      → AddsAt k is_a [] t (returned m msg x t)
  returned-AddsAt msg x t s = elim (Option-cases x.result) [
    | inl e ↦ rw e tt
    | inr (r, e) ↦ rw e (refl, s)
  ]

  pub exchanged-Quiet :
      (msg : Message Buf) (call : NlSock → World Buf → Option (Exchanged Buf (Answer m)))
      → Quiet k is_a (exchanged m msg call)
  unfolding exchanged
  exchanged-Quiet msg call = record { adds = λ t s. each t.scene.worlds t s }
    where
      each :
          (ws : List (World Buf)) (t : Thread Buf)
          → HasSeat k is_a t
          → AddsAt k is_a [] t (elim ws [
            | [] ↦ none
            | w ∷ ws' ↦ elim (call t.scene.sock w) [
              | none ↦ none
              | some x ↦ returned m msg x (record t { scene = record t.scene { worlds = ws' } })
            ]
          ])
      each [] t s = tt
      each (w ∷ ws) t s =
          elim (call t.scene.sock w)
            as (λ o. AddsAt k is_a [] t (elim o [
              | none ↦ none
              | some x ↦ returned m msg x (record t { scene = record t.scene { worlds = ws } })
            ])) [
              | none ↦ tt
              | some x ↦
                  returned-AddsAt msg x (record t { scene = record t.scene { worlds = ws } }) s
            ]

  pub record_nl_error_if-Quiet : (c : Bool) (ret : ℤ) → Quiet k is_a (record_nl_error_if m c ret)
  unfolding record_nl_error
  record_nl_error_if-Quiet c ret =
      if-Adds k is_a c [] (record { adds = λ t s. (refl, s) }) (pure-Adds k is_a tt)

  pub built_with-Quiet :
      (msg : Message Buf) (o : Option (ℤ × Option (NlMsg Buf))) → Quiet k is_a (built_with m msg o)
  built_with-Quiet msg none = record { adds = λ t s. tt }
  built_with-Quiet msg (some b) = record { adds = λ t s. (refl, s) }

  pub open_socket-Settles :
      (malloc : ℕ → Bool) (opening : Opening) → Settles k is_a (open_socket m malloc opening)
  unfolding open_socket
  open_socket-Settles malloc opening = opens (gb_nl_open malloc opening true)
    where
      opens : (r : ℤ × Option NlSock) → Settles k is_a (opened m r)
      opens (ret, sock) = record {
        sets = λ t s. elim (Bool-cases (is_neg ret)) [
          | inl e ↦ rw (opened, e) ((give_up-Settles k is_a ret).sets t s)
          | inr e ↦ rw (opened, e) (refl, s)
        ];
      }
