-- ===== src/Nl.antt =====
-- Netlink exchanges (src/nl.c, include/gatebench_nl.h): the socket with its sequence numbers and the
-- messages that arrive. What poll and the kernel do is a list of events.
pub mod Receive
pub mod Dump
pub mod Exchange
pub mod Get
pub mod First
pub mod GetTrip
pub mod Totals
pub mod Flush
pub mod Flushed
pub mod Expected
pub mod Open
use gatebench.Base.{
  ℕ, ◌+◌, ◌%◌, Option, none, some, List, ℤ, pos, negsuc, neg, u32_mod, ltb, if◌then◌else◌, eproto,
}

-- struct gb_nl_sock, less the socket itself
pub record NlSock : Type 0 where
  pub pid : ℕ
  pub seq : ℕ

-- The sequence number and the socket after it; no socket gives 0.
abbrev pub gb_nl_next_seq : Option NlSock → ℕ × Option NlSock
gb_nl_next_seq none = (0, none)
gb_nl_next_seq (some s) = (s.seq, some (record s { seq = (s.seq + 1) % u32_mod }))

-- A message that arrived: its header, the error of its struct nlmsgerr, and the message itself.
pub record Arrived (Buf : Type 0) : Type 0 where
  pub nlmsg_len : ℕ
  pub nlmsg_type : ℕ
  pub nlmsg_seq : ℕ
  pub error : ℤ
  pub message : Buf

-- One round of poll and mnl_socket_recvfrom: either fails with an errno, poll times out, or the
-- messages of a datagram arrive, as mnl_nlmsg_ok and mnl_nlmsg_next walk them.
pub data Event (Buf : Type 0) : Type 0 where
  poll_failed : ℕ → Event Buf
  timed_out : Event Buf
  recv_failed : ℕ → Event Buf
  datagram : List (Arrived Buf) → Event Buf

-- mnl_socket_sendto: it fails with an errno or says how many bytes went out.
pub data Sending : Type 0 where
  send_failed : ℕ → Sending
  sent : ℕ → Sending

-- NLMSG_ERROR, NLMSG_DONE, NLMSG_HDRLEN, sizeof(struct nlmsgerr)
abbrev pub nlmsg_error : ℕ
nlmsg_error = 2

abbrev pub nlmsg_done : ℕ
nlmsg_done = 3

abbrev pub nlmsg_hdrlen : ℕ
nlmsg_hdrlen = 16

abbrev pub nlmsgerr_size : ℕ
nlmsgerr_size = 20

abbrev pub parse_error : {Buf : Type 0} → Arrived Buf → ℤ
parse_error nlh = if ltb nlh.nlmsg_len (nlmsg_hdrlen + nlmsgerr_size) then neg eproto else nlh.error
