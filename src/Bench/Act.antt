-- ===== src/Bench/Act.antt =====
-- The calls of the benchmark, one after the other: the socket, what is still to happen outside, and
-- the codes that end a run. `none` means that a call still waits or that no more is said of the
-- outside.
use gatebench.Base.{ℕ, Bool, true, Option, none, some, List, [], ◌∷◌, ℤ, pos, is_neg, if◌then◌else◌}
use gatebench.Base.Double.{Double}
use gatebench.Base.Sort.{Qsort}
use gatebench.Mnl.{Mnl}
use gatebench.Gate.Types.{GateEntry}
use gatebench.Nl.{NlSock}
use gatebench.Nl.Exchange.{Message, World, Exchanged, Answer, gb_nl_send_recv}
use gatebench.Util.{Call, Timespec, gb_util_ns_now}

-- The libraries below the benchmark, and what memory they grant. `fresh` and `blank` are what malloc
-- leaves in a buffer and in an entry, `socket_buffer` is MNL_SOCKET_BUFFER_SIZE.
pub record Machine : Type 1 where
  pub mnl : Mnl
  pub double : Double
  pub sort : Qsort ℕ
  pub sort_double : Qsort (double.F)
  pub malloc : ℕ → Bool
  pub realloc : ℕ → Bool
  pub socket_buffer : ℕ
  pub fresh : mnl.Buf
  pub blank : GateEntry

-- The socket, the sends to come and the readings of the clock to come.
pub record Scene (Buf : Type 0) : Type 0 where
  pub sock : NlSock
  pub worlds : List (World Buf)
  pub clocks : List (Call Timespec)

pub data Result (A : Type 0) : Type 0 where
  ok : A → Result A
  err : ℤ → Result A

abbrev pub kept : {A : Type 0} → A → Option A → A
kept old none = old
kept old (some new) = new

abbrev pub Act : Type 0 → Type 0 → Type 0
Act S A = S → Option (Result A × S)

module _ {S A : Type 0} where
  abbrev pub pure : A → Act S A
  pure a s = some (ok a, s)

  abbrev pub raise : ℤ → Act S A
  raise e s = some (err e, s)

  -- The next action runs only behind a result.
  abbrev pub then_act : {B : Type 0} → Option (Result A × S) → (A → Act S B) → Option (Result B × S)
  then_act none f = none
  then_act (some (ok a, s)) f = f a s
  then_act (some (err e, s)) f = some (err e, s)

  infixl 5 ◌>>=◌ ◌>>◌
  abbrev pub ◌>>=◌ : {B : Type 0} → Act S A → (A → Act S B) → Act S B
  ◌>>=◌ x f s = then_act (x s) f

  abbrev pub ◌>>◌ : {B : Type 0} → Act S A → Act S B → Act S B
  x >> y = x >>= λ _. y

abbrev pub raise_if : {S : Type 0} → Bool → ℤ → Act S (Unit {0})
raise_if c e s = (if c then some (err e, s) else some (ok tt, s))

module _ (m : Mnl) where
  open m use {Buf}

  -- ret = gb_nl_send_recv(sock, msg, resp, ...): the code, and the message with its sequence number
  abbrev pub returned_send :
      Message Buf
      → Exchanged Buf (Answer m)
      → Scene Buf
      → Option (Result (ℤ × Message Buf) × Scene Buf)
  returned_send msg x sc = elim x.result [
    | none ↦ none
    | some (ret, datagram) ↦ some (
      ok (ret, record msg { buf = kept msg.buf x.request }),
      record sc { sock = kept sc.sock x.sock },
    )
  ]

  unfoldable pub send : Message Buf → Act (Scene Buf) (ℤ × Message Buf)
  unfolding gb_nl_send_recv
  send msg sc = elim sc.worlds [
    | [] ↦ none
    | w ∷ ws ↦
        returned_send msg (gb_nl_send_recv m (some sc.sock) (some msg) true w)
          (record sc { worlds = ws })
  ]

  -- ret = gb_util_ns_now(&x, CLOCK_MONOTONIC_RAW); if (ret < 0) goto out;
  abbrev pub returned_now : ℤ × Option ℕ → Scene Buf → Option (Result ℕ × Scene Buf)
  returned_now (ret, out) sc = if is_neg ret then some (err ret, sc) else some (ok (kept 0 out), sc)

  unfoldable pub now : Act (Scene Buf) ℕ
  unfolding gb_util_ns_now
  now sc = elim sc.clocks [
    | [] ↦ none
    | c ∷ cs ↦ returned_now (gb_util_ns_now (λ clk. c) (some 0) (pos 4)) (record sc { clocks = cs })
  ]
