-- ===== src/Nl/Open.antt =====
-- gb_nl_open of src/nl.c: the socket that the exchanges start from.
use gatebench.Base.{ℕ, Bool, not, Option, none, some, ℤ, pos, neg, einval, enomem, if◌then◌else◌}
use gatebench.Nl.{NlSock}

-- mnl_socket_open and mnl_socket_bind: the errno that is there when either has failed and what it
-- held is given back, or the port that the bound socket got.
pub data Opening : Type 0 where
  open_failed : ℕ → Opening
  bind_failed : ℕ → Opening
  bound : ℕ → Opening

-- The code, and what is stored through `sock`; `sock` says that the pointer is not NULL.
unfoldable pub gb_nl_open : (ℕ → Bool) → Opening → Bool → ℤ × Option NlSock
gb_nl_open malloc opening sock =
    if not sock
    then (neg einval, none)
    else if not (malloc 16)
    then (neg enomem, none)
    else elim opening [
      | open_failed e ↦ (neg e, none)
      | bind_failed e ↦ (neg e, none)
      | bound port ↦ (pos 0, some (record { pid = port; seq = 1 }))
    ]
