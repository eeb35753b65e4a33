-- ===== src/Tests/SampleLibc.antt =====
-- A C library for the runs: decimal digits, with no white space, sign or overflow.
use gatebench.Base.{
  ℕ, ◌+◌, ◌-◌, ◌*◌, ◌%◌, ◌<◌, ◌^◌, ◌&&◌, [], ◌∷◌, pos, u64_mod, arith, leb, if◌then◌else◌,
}
use gatebench.Base.Libc.{Bytes, Unsigned, Signed, Libc}

pub scan_digits : Bytes → ℕ → ℕ → Unsigned
scan_digits [] n i = record { value = n % u64_mod; errno = 0; stop = i }
scan_digits (c ∷ cs) n i =
    let rest = scan_digits cs (n * 10 + (c - 48)) (i + 1) in
    if leb 48 c && leb c 57 then rest else record { value = n % u64_mod; errno = 0; stop = i }

pub scan_digits_range : (cs : Bytes) (n i : ℕ) → (scan_digits cs n i).value < 2 ^ 64
unfolding scan_digits
scan_digits_range [] n i = omega arith
scan_digits_range (c ∷ cs) n i = ground (arith, scan_digits_range cs (n * 10 + (c - 48)) (i + 1))

abbrev to_signed : Unsigned → Signed
to_signed u = record { value = pos u.value; errno = u.errno; stop = u.stop }

unfoldable pub sample_libc : Libc
unfolding scan_digits
sample_libc = record {
  strtoul = λ s. scan_digits s 0 0;
  strtoull = λ s. scan_digits s 0 0;
  strtol = λ s. to_signed (scan_digits s 0 0);
  strtoull_range = λ s. scan_digits_range s 0 0;
}
