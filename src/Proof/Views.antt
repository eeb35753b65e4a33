-- ===== src/Proof/Views.antt =====
-- The steps of src/proof.c before its capture leave the summary and the capture alone, and fail with a
-- negative code.
use Prim.Native.Nat.{bit_or}
use gatebench.Base.{
  ℕ, ◌*◌, ◌≡◌, ◌∙◌, refl, Bool, true, false, Option, none, some, List, [], ◌∷◌, ℤ, neg, is_neg,
  ◌==◌, enomem, enoent, if◌then◌else◌, All, Bool-cases, Option-cases, inl, inr, is_some, replicate,
  ◌&&◌, not, ◌==ℤ◌,
}
use gatebench.Config.{GbConfig}
use gatebench.Gate.Types.{GateEntry, NlMsg}
use gatebench.Gate.Build.{build_gate_newaction, build_gate_delaction, build_gate_getaction_ex}
use gatebench.Gate.Numbers.{nlm_f_create, nlm_f_excl, nlm_f_dump}
use gatebench.Gate.Capacity.{gate_msg_capacity}
use gatebench.Nl.Exchange.{Message, World, Exchanged, Answer, gb_nl_send_recv}
use gatebench.Bench.{gb_fill_entries}
use gatebench.Bench.Act.{Machine, Result, ok, err, Act, then_act, pure, raise, ◌>>=◌, raise_if}
use gatebench.Bench.Run.{entries_of, filled, shape_of}
use gatebench.Race.Thread.{to_build}
use gatebench.Proof.Prepare.{
  S, scene_returned, on_scene, replied, ask_kernel, built_or_out, all_three, allocated, keep_del,
  keep_dump, dump_request, request_dump, proof_entries, prepared,
}
use gatebench.Proof.Ended.{IsPlain}

module _ {S : Type 0} (Next : S → S → Type 0) where
  abbrev pub Leaves : {A : Type 0} → S → Option (Result A × S) → Type 0
  Leaves s none = Unit
  Leaves s (some (ok a, t)) = Next s t
  Leaves s (some (err e, t)) = (is_neg e ≡ true) × Next s t

  pub record Keeps {A : Type 0} (x : Act S A) : Type 0 where
    pub leaves : (s : S) → Leaves s (x s)

  module _ (trans : (s t u : S) → Next s t → Next t u → Next s u) where
    Leaves-trans :
        {A : Type 0} (s t : S) (o : Option (Result A × S)) → Next s t → Leaves t o → Leaves s o
    Leaves-trans s t none h k = tt
    Leaves-trans s t (some (ok a, u)) h k = trans s t u h k
    Leaves-trans s t (some (err e, u)) h k = (k.0, trans s t u h k.1)

    then_act-Leaves :
        {A B : Type 0} (s : S) (o : Option (Result A × S)) (f : A → Act S B)
        → Leaves s o
        → ((a : A) → Keeps (f a))
        → Leaves s (then_act o f)
    then_act-Leaves s none f h k = tt
    then_act-Leaves s (some (ok a, t)) f h k = Leaves-trans s t (f a t) h ((k a).leaves t)
    then_act-Leaves s (some (err e, t)) f h k = h

    pub bind-Keeps :
        {A B : Type 0} {x : Act S A} {f : A → Act S B}
        → Keeps x
        → ((a : A) → Keeps (f a))
        → Keeps (x >>= f)
    bind-Keeps {x = x} {f = f} h k = record {
      leaves = λ s. then_act-Leaves s (x s) f (h.leaves s) k;
    }

  module _ (same : (s : S) → Next s s) where
    pub pure-Keeps : {A : Type 0} (a : A) → Keeps (pure a)
    pure-Keeps a = record { leaves = λ s. same s }

    pub raise_if_neg-Keeps : (ret : ℤ) (c : Bool) → Keeps (raise_if (is_neg ret && c) ret)
    raise_if_neg-Keeps ret c = raises (is_neg ret) c refl
      where
        raises : (n c : Bool) → is_neg ret ≡ n → Keeps (raise_if (n && c) ret)
        raises true true e = record { leaves = λ s. (e, same s) }
        raises true false e = record { leaves = λ s. same s }
        raises false c e = record { leaves = λ s. same s }

    pub raise_neg-Keeps : (ret : ℤ) → Keeps (raise_if (is_neg ret) ret)
    raise_neg-Keeps ret = raises (is_neg ret) refl
      where
        raises : (n : Bool) → is_neg ret ≡ n → Keeps (raise_if n ret)
        raises true e = record { leaves = λ s. (e, same s) }
        raises false e = record { leaves = λ s. same s }

module _ (w : Machine) where
  open w use {mnl, malloc, socket_buffer, fresh}

  -- The summary and the capture stay, and the worlds that are left are no worse.
  abbrev pub Calm : S w → S w → Type 0
  Calm s t =
      (t.summary ≡ s.summary)
      × (t.capture ≡ s.capture)
      × (All IsPlain s.scene.worlds → All IsPlain t.scene.worlds)

  pub Calm-refl : (s : S w) → Calm s s
  Calm-refl s = (refl, refl, λ h. h)

  pub Calm-trans : (s t u : S w) → Calm s t → Calm t u → Calm s u
  Calm-trans s t u h k = (k.0 ∙ h.0, k.1 ∙ h.1, λ p. k.2 (h.2 p))

  abbrev pub Careful : {A : Type 0} → Act (S w) A → Type 0
  Careful x = Keeps Calm x

  filled-Leaves :
      (o : Option (ℤ × Option (List GateEntry))) (s : S w)
      → Leaves Calm s (scene_returned w s (filled w o s.scene))
  filled-Leaves none s = tt
  filled-Leaves (some (ret, es)) s = elim (Bool-cases (is_neg ret)) [
    | inl e ↦ rw (filled, e) (e, Calm-refl s)
    | inr e ↦ rw (filled, e) (Calm-refl s)
  ]

  entries-Careful : (count : ℕ) (cfg : GbConfig) → Careful (on_scene w (entries_of w count cfg))
  unfolding gb_fill_entries
  entries-Careful count cfg = record { leaves = λ s. each (count == 0) (malloc (count * 20)) s }
    where
      each :
          (none_at_all granted : Bool) (s : S w)
          → Leaves Calm s (
              scene_returned w s (
                (if none_at_all
                    then pure none
                    else if granted
                    then filled w
                        (gb_fill_entries (some (replicate count w.blank)) count cfg.interval_ns)
                    else raise (neg enomem))
                  s.scene))
      each true granted s = Calm-refl s
      each false true s = filled-Leaves _ s
      each false false s = (refl, Calm-refl s)

  all_three-Leaves :
      (create del dump : Option (Message mnl.Buf)) (s t : S w)
      → Calm s t
      → Leaves Calm s (all_three w create del dump t)
  all_three-Leaves (some c) (some d) (some r) s t h = h
  all_three-Leaves (some c) (some d) none s t h = (refl, h)
  all_three-Leaves (some c) none dump s t h = (refl, h)
  all_three-Leaves none del dump s t h = (refl, h)

  allocated-Careful : (cap : ℕ) → Careful (allocated w cap)
  allocated-Careful cap = record { leaves = λ s. all_three-Leaves _ _ _ s _ (Calm-refl s) }

  replied-Leaves :
      (msg : Message mnl.Buf) (x : Exchanged mnl.Buf (Answer mnl)) (s t : S w)
      → Calm s t
      → Leaves Calm s (replied w msg x t)
  replied-Leaves msg x s t c = elim (Option-cases x.result) [
    | inl e ↦ rw e tt
    | inr (r, e) ↦ rw e c
  ]

  pub ask_kernel-Careful : (msg : Message mnl.Buf) → Careful (ask_kernel w msg)
  unfolding ask_kernel
  ask_kernel-Careful msg = record { leaves = λ s. each s.scene.worlds s λ h. h }
    where
      each :
          (ws : List (World mnl.Buf)) (s : S w)
          → (All IsPlain s.scene.worlds → All IsPlain ws)
          → Leaves Calm s (elim ws [
            | [] ↦ none
            | x ∷ xs ↦
                replied w msg
                  (gb_nl_send_recv mnl (some s.scene.sock) (some msg) (is_some s.dump) x)
                  (record s { scene = record s.scene { worlds = xs } })
          ])
      each [] s f = tt
      each (x ∷ xs) s f =
          replied-Leaves msg (gb_nl_send_recv mnl (some s.scene.sock) (some msg) (is_some s.dump) x)
            s (record s { scene = record s.scene { worlds = xs } }) (refl, refl, λ h. (f h).1)

  built_or_out-Careful :
      (msg : Message mnl.Buf) (o : Option (ℤ × Option (NlMsg mnl.Buf)))
      → Careful (built_or_out w msg o)
  built_or_out-Careful msg none = record { leaves = λ s. tt }
  built_or_out-Careful msg (some (ret, b)) = elim (Bool-cases (is_neg ret)) [
    | inl e ↦ record { leaves = λ s. rw (built_or_out, e) (e, Calm-refl s) }
    | inr e ↦ record { leaves = λ s. rw (built_or_out, e) (Calm-refl s) }
  ]

  request_dump-Careful : (index : ℕ) → Careful (request_dump w index)
  request_dump-Careful index = record { leaves = λ s. each s.dump s }
    where
      each :
          (dump : Option (Message mnl.Buf)) (s : S w) → Leaves Calm s (dump_request w index dump s)
      each none s = tt
      each (some msg) s =
          (built_or_out-Careful msg (
              some (
                build_gate_getaction_ex mnl (to_build mnl (record msg { len = 0 })) index
                  nlm_f_dump))).leaves
            s

  keep_del-Careful : (msg : Message mnl.Buf) → Careful (keep_del w msg)
  keep_del-Careful msg = record { leaves = λ s. (refl, refl, λ h. h) }

  keep_dump-Careful : (msg : Message mnl.Buf) → Careful (keep_dump w msg)
  keep_dump-Careful msg = record { leaves = λ s. (refl, refl, λ h. h) }

  pub prepared-Careful : (cfg : GbConfig) → Careful (prepared w cfg)
  unfolding prepared
  prepared-Careful cfg =
      let count = proof_entries w cfg in
      bind-Keeps Calm Calm-trans (entries-Careful count cfg) λ es.
        bind-Keeps Calm Calm-trans (allocated-Careful (gate_msg_capacity socket_buffer count 0))
          λ two.
            bind-Keeps Calm Calm-trans
              (built_or_out-Careful two.1
                (some (build_gate_delaction mnl (to_build mnl two.1) cfg.index)))
              λ del. bind-Keeps Calm Calm-trans (ask_kernel-Careful del) λ d.
                bind-Keeps Calm Calm-trans (keep_del-Careful d.1) λ u.
                  bind-Keeps Calm Calm-trans
                    (raise_if_neg-Keeps Calm Calm-refl d.0 (not (d.0 ==ℤ neg enoent)))
                    λ u'.
                      bind-Keeps Calm Calm-trans
                        (built_or_out-Careful two.0 (
                          build_gate_newaction mnl (to_build mnl two.0) cfg.index
                            (some (shape_of w cfg count)) es count (bit_or nlm_f_create nlm_f_excl)
                            0 (neg 1)))
                        λ create. bind-Keeps Calm Calm-trans (ask_kernel-Careful create) λ c.
                          bind-Keeps Calm Calm-trans (raise_neg-Keeps Calm Calm-refl c.0) λ u''.
                            bind-Keeps Calm Calm-trans (request_dump-Careful cfg.index) λ msg.
                              bind-Keeps Calm Calm-trans (keep_dump-Careful msg)
                                λ u3. pure-Keeps Calm Calm-refl msg
