-- ===== src/Cli/Rom.antt =====
-- src/cli.c, `boot`: reading the ROM into the VM's memory, in pieces of 1024 bytes. A piece is what
-- `fread` yields of a file of which so many bytes are left.
use buxn_jit.Prelude.{
  ℕ, zero, suc, ◌+◌, ◌-◌, ◌≤◌, ◌<◌, ◌%◌, ◌≡◌, ◌⊎◌, refl, ◌==◌, ltb, if◌then◌else◌, Bool-cases, inl,
  inr, arith,
}

-- `fread(read_pos, 1, 1024, rom_file)`
abbrev pub piece : ℕ → ℕ
piece left = if ltb left 1024 then left else 1024

-- The loop, from the position `pos` with `left` bytes of the file to come; the result is the end of
-- what was written. A round without bytes ends the loop, so that the fuel is never used up if it is
-- more than the bytes of the file.
unfoldable pub read_rom : ℕ → ℕ → ℕ → ℕ → ℕ
read_rom size zero pos left = pos
read_rom size (suc fuel) pos left =
    let n = piece left in
    let rest = read_rom size fuel (pos + n) (left - n) in
    if ltb pos size then if n == 0 then pos else rest else pos

-- With more fuel than bytes, a ROM that fits into the memory from a position on is read whole, and
-- what is written ends with it.
pub read_rom-fits :
    (size fuel pos left : ℕ)
    → left < fuel
    → pos + left ≤ size
    → read_rom size fuel pos left ≡ pos + left
unfolding read_rom
read_rom-fits size zero pos left h fits = absurd (omega arith)
read_rom-fits size (suc fuel) pos left h fits = elim (Bool-cases (left == 0)) [
  | inl none_left ↦ ground arith
  | inr some_left ↦
      let n = piece left in
      ground (arith, read_rom-fits size fuel (pos + n) (left - n) (ground arith) (ground arith))
]

read_rom-end : (size fuel pos : ℕ) → read_rom size fuel pos 0 ≡ pos
unfolding read_rom
read_rom-end size zero pos = refl
read_rom-end size (suc fuel) pos = ground arith

-- A piece that is not full is the last one.
read_rom-short :
    (size fuel pos left : ℕ)
    → left < 1024
    → pos < size
    → read_rom size (suc fuel) pos left ≡ pos + left
unfolding read_rom
read_rom-short size fuel pos left short more =
    ground (arith, read_rom-end size fuel (pos + left), read_rom-end size fuel pos)

-- Where the reading of a long ROM ends
abbrev pub Overrun : ℕ → ℕ → ℕ → ℕ → Type 0
Overrun size pos left end =
    (size ≤ end)
    × (end < size + 1024)
    × (end ≤ pos + left)
    × ((end % 1024 ≡ pos % 1024) ⊎ (end ≡ pos + left))

read_rom-Overrun :
    (size fuel pos left : ℕ)
    → left < fuel
    → pos < size + 1024
    → size ≤ pos + left
    → Overrun size pos left (read_rom size fuel pos left)
unfolding read_rom
read_rom-Overrun size zero pos left h near long = absurd (omega arith)
read_rom-Overrun size (suc fuel) pos left h near long = elim (Bool-cases (ltb pos size)) [
  | inr enough ↦ (ground arith, ground arith, ground arith, inl (ground arith))
  | inl more ↦ elim (Bool-cases (ltb left 1024)) [
    | inl last ↦
        let end : read_rom size (suc fuel) pos left ≡ pos + left =
          read_rom-short size fuel pos left (ground arith) (ground arith) in
        (omega (arith, end, long), ground (arith, end), omega (arith, end), inr end)
    | inr whole ↦
        let (reached, close, bounded, aligned) =
          read_rom-Overrun size fuel (pos + 1024) (left - 1024) (ground arith) (ground arith)
            (ground arith) in
        let next : read_rom size (suc fuel) pos left
            ≡ read_rom size fuel (pos + 1024) (left - 1024) =
          ground arith in
        (
          omega (arith, next, reached),
          omega (arith, next, close),
          ground (arith, next, bounded),
          elim aligned [
            | inl same ↦ inl (omega (arith, next, same))
            | inr all ↦ inr (ground (arith, next, all))
          ],
        )
  ]
]

-- With more fuel than bytes, a ROM that is longer than the room from a position within the memory
-- is read up to or beyond the end of memory: by less than a piece, by no more than there is, and in
-- whole pieces unless it ends there.
pub read_rom-over :
    (size fuel pos left : ℕ)
    → left < fuel
    → pos ≤ size
    → size < pos + left
    → Overrun size pos left (read_rom size fuel pos left)
read_rom-over size fuel pos left h inside long =
    read_rom-Overrun size fuel pos left h (omega arith) (omega arith)
