-- ===== src/Race/Extack.antt =====
-- The messages that the kernel adds to an error (src/race.c): race_extack_attr_cb,
-- race_parse_extack_msg, race_record_extack and race_record_nl_error. A char array is the string in
-- it, without the terminator.
use gatebench.Base.{
  ℕ, zero, suc, ◌+◌, ◌-◌, ◌%◌, Bool, true, false, not, ◌||◌, ◌&&◌, Option, none, some, List, [],
  ◌∷◌, ℤ, pos, is_neg, u64_mod, ltb, leb, ◌==◌, if◌then◌else◌, str_eq, length, is_some,
}
use gatebench.Base.Libc.{Bytes}
use gatebench.Mnl.{Mnl}
use gatebench.Mnl.Tlv.{Attr}
use gatebench.Nl.{Arrived, nlmsg_error, nlmsg_hdrlen, nlmsgerr_size}
use gatebench.Race.{race_record_err}

-- RACE_EXTACK_MSG_MAX and RACE_EXTACK_SLOTS
abbrev pub race_extack_msg_max : ℕ
race_extack_msg_max = 128

abbrev pub race_extack_slots : ℕ
race_extack_slots = 6

-- struct gb_race_extack_entry
pub record ExtackEntry : Type 0 where
  pub msg : Bytes
  pub count : ℕ

pub record ExtackStats : Type 0 where
  pub entries : List ExtackEntry
  pub other : ℕ

-- The first n bytes of a string, or all of it: strnlen, snprintf and memcpy.
unfoldable pub at_most : ℕ → Bytes → Bytes
at_most zero s = []
at_most (suc n) [] = []
at_most (suc n) (c ∷ s) = c ∷ at_most n s

-- stats->entries[i].count > 0 && strcmp(stats->entries[i].msg, msg) == 0
abbrev pub holds : Bytes → ExtackEntry → Bool
holds msg e = ltb 0 e.count && str_eq e.msg msg

-- The loop, where it returns: the first slot that holds the message counts it.
unfoldable pub count_again : Bytes → List ExtackEntry → Option (List ExtackEntry)
count_again msg [] = none
count_again msg (e ∷ es) =
    let rest = count_again msg es in
    if holds msg e
    then some (record e { count = (e.count + 1) % u64_mod } ∷ es)
    else elim rest [ none ↦ none | some es' ↦ some (e ∷ es') ]

-- Behind the loop: the first slot of count 0, the index of which is `empty`, takes the message.
unfoldable pub take_slot : Bytes → List ExtackEntry → Option (List ExtackEntry)
unfolding at_most
take_slot msg [] = none
take_slot msg (e ∷ es) =
    let rest = take_slot msg es in
    if e.count == 0
    then some (record { msg = at_most (race_extack_msg_max - 1) msg; count = 1 } ∷ es)
    else elim rest [ none ↦ none | some es' ↦ some (e ∷ es') ]

abbrev pub is_nil : Bytes → Bool
is_nil [] = true
is_nil (c ∷ s) = false

abbrev pub record_msg : ExtackStats → Bytes → ExtackStats
record_msg stats msg = elim (count_again msg stats.entries) [
  | some es ↦ record stats { entries = es }
  | none ↦ elim (take_slot msg stats.entries) [
    | some es ↦ record stats { entries = es }
    | none ↦ record stats { other = (stats.other + 1) % u64_mod }
  ]
]

-- Either pointer is `none` for NULL.
unfoldable pub race_record_extack : Option ExtackStats → Option Bytes → Option ExtackStats
unfolding count_again take_slot
race_record_extack none msg = none
race_record_extack (some stats) none = some stats
race_record_extack (some stats) (some msg) =
    if is_nil msg then some stats else some (record_msg stats msg)

-- MNL_CB_STOP and MNL_CB_OK
abbrev pub cb_stop : ℤ
cb_stop = pos 0

abbrev pub cb_ok : ℤ
cb_ok = pos 1

-- NLMSGERR_ATTR_MSG
abbrev pub nlmsgerr_attr_msg : ℕ
nlmsgerr_attr_msg = 1

module _ (m : Mnl) where
  open m use {Buf, attr_get_type, attr_get_payload, attr_get_str, attr_parse}

  -- ctx->out behind ctx->found; the string keeps what fits behind its terminator.
  unfoldable pub race_extack_attr_cb : ℕ → Attr → Option Bytes → ℤ × Option Bytes
  unfolding at_most
  race_extack_attr_cb out_len attr (some found) = (cb_ok, some found)
  race_extack_attr_cb out_len attr none =
      if not (attr_get_type attr == nlmsgerr_attr_msg)
      then (cb_ok, none)
      else if length (attr_get_payload attr) == 0
      then (cb_ok, none)
      else if is_nil (attr_get_str attr)
      then (cb_ok, none)
      else (cb_stop, some (at_most (out_len - 1) (attr_get_str attr)))

  -- The string in `out` where the function returns true. `out` has out_len bytes.
  unfoldable pub race_parse_extack_msg : Option (Arrived Buf) → ℕ → Option Bytes
  unfolding race_extack_attr_cb
  race_parse_extack_msg none out_len = none
  race_parse_extack_msg (some resp) out_len =
      if out_len == 0
      then none
      else if not (resp.nlmsg_type == nlmsg_error)
      then none
      else if ltb resp.nlmsg_len (nlmsg_hdrlen + nlmsgerr_size)
      then none
      else if leb (resp.nlmsg_len - nlmsg_hdrlen) nlmsgerr_size
      then none
      else let (ret, found) =
          attr_parse (Option Bytes) resp.message (nlmsg_hdrlen + nlmsgerr_size)
            (race_extack_attr_cb out_len) none in
        if is_neg ret then none else found

  -- The errors, their counts by number and the messages.
  unfoldable pub race_record_nl_error :
      Option ℕ
      → Option (List ℕ)
      → Option ExtackStats
      → ℤ
      → Option (Arrived Buf)
      → Option ℕ × Option (List ℕ) × Option ExtackStats
  unfolding race_parse_extack_msg race_record_extack race_record_err
  race_record_nl_error errors err_counts extack ret resp =
      let (errors', counts') = race_record_err errors err_counts ret in
      if not (is_neg ret) || (not (is_some extack) || not (is_some resp))
      then (errors', counts', extack)
      else (
        errors',
        counts',
        race_record_extack extack (race_parse_extack_msg resp race_extack_msg_max),
      )
