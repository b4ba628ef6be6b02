-- ===== src/Fdt/Parse.antt =====
-- A device tree that is accepted: its blocks lie apart within the input, and its walk succeeds.
use switchvisor.Base.{
  ℕ, zero, suc, ◌+◌, ◌%◌, ◌<◌, ◌≤◌, ◌≡◌, ◌⊎◌, refl, Bool, false, not, leb, ltb, ◌==◌, if◌then◌else◌,
  List, [], length, drop, all, get_range, length-take, some, Result, ok, err, ◌>>=◌, ok_or,
  and_then, Holds, Given, Given-and_then, Given_map, arith, Bool-cases, Option-cases, Result-cases,
  inl, inr,
}
use switchvisor.Fdt.{
  Fdt, FdtError, truncated, header, block_overlap, Visit, Blocks, block, word, reservations,
  any_meet, is_bad_header, read_blocks, read_total, ranges_of, parse, walk,
}
use switchvisor.Fdt.Bounds.{
  Holds_bind, Holds_map, Holds_reject, block-fits, AllInside, walk-AllInside,
}

reservations-returns :
    (n : ℕ) (bytes : List ℕ) (end : ℕ)
    → 1 ≤ n
    → length bytes + 1 ≤ n + end
    → Given (reservations n bytes end) (λ r. Holds r (λ out. end < out))
unfolding reservations
reservations-returns zero bytes end some_left enough = absurd (omega arith)
reservations-returns (suc n) bytes end some_left enough = elim (Result-cases (block bytes end 16)) [
  | inr (e, h) ↦ rw (reservations, h) tt
  | inl (entry, h) ↦ elim (Bool-cases (all (λ b. b == 0) entry)) [
    | inl z ↦ rw (reservations, h, z) (omega arith)
    | inr z ↦
        (let fits = block-fits bytes end 16 h in
          rw (reservations, h, z)
            (Given_map (reservations n bytes (end + 16))
              (reservations-returns n bytes (end + 16) (omega arith) (omega arith))
              (λ r later.
                Holds_map (λ out. end + 16 < out) (λ out. end < out) r later
                  (λ out lt. omega arith))))
  ]
]

-- The structure block is within the tree, and clear of its header unless it is empty.
unfoldable pub IsPlaced : Fdt → Type 0
IsPlaced f =
    (40 ≤ length f.bytes)
    × (f.structure_offset % 4 ≡ 0)
    × (f.structure_offset + length f.tokens ≤ length f.bytes)
    × ((length f.tokens ≡ 0) ⊎ (40 ≤ f.structure_offset))

-- The same, before the ranges are compared.
unfoldable pub IsRead : List ℕ → Blocks → Type 0
IsRead bytes b =
    (b.fdt.bytes ≡ bytes)
    × (b.fdt.structure_offset % 4 ≡ 0)
    × (b.fdt.structure_offset + length b.fdt.tokens ≤ length bytes)

read_blocks-IsRead : (bytes : List ℕ) → Holds (read_blocks bytes) (IsRead bytes)
unfolding read_blocks IsRead is_bad_header
read_blocks-IsRead bytes = Holds_bind _ (word bytes 8) _ (λ structure_offset a.
    Holds_bind _ (word bytes 12) _ (λ strings_offset b.
      Holds_bind _ (word bytes 16) _ (λ reservations_offset c.
        Holds_bind _ (word bytes 20) _ (λ version d. Holds_bind _ (word bytes 24) _ (λ compatible e.
          Holds_reject _ (is_bad_header version compatible structure_offset reservations_offset)
            header _
            (λ good. Holds_bind _ (word bytes 32) _ (λ strings_size f.
              Holds_bind _ (word bytes 36) _ (λ structure_size g.
                Holds_bind _ (block bytes structure_offset structure_size) _ (λ tokens h.
                  Holds_bind _ (block bytes strings_offset strings_size) _ (λ strings i.
                    let fits = block-fits bytes structure_offset structure_size h in
                    (refl, ground arith, omega arith)))))))))))

read_total-ge : (input : List ℕ) → Holds (read_total input) (λ bytes. 40 ≤ length bytes)
unfolding read_total
read_total-ge input = Holds_reject _ (ltb (length input) 40) header _ (λ long.
    Holds_bind _ (word input 0) _ (λ magic a.
      Holds_reject _ (not (magic == 0xd00d_feed)) header _ (λ right.
        Holds_bind _ (word input 4) _
          (λ total b. Holds_reject _ (ltb total 40) header _ (λ enough. whole total enough)))))
  where
    whole :
        (total : ℕ)
        → ltb total 40 ≡ false
        → Holds (ok_or (get_range input 0 total) truncated) (λ bytes. 40 ≤ length bytes)
    whole total h = elim (Bool-cases (leb (0 + total) (length input))) [
      | inl e ↦ (let cut = length-take total (drop 0 input) in rw e (ground arith))
      | inr e ↦ rw e tt
    ]

-- The ranges that are compared hold the header and the structure block.
any_meet-apart :
    (b : Blocks) (reservation_end : ℕ)
    → any_meet [] (ranges_of b reservation_end) ≡ false
    → (length b.fdt.tokens ≡ 0) ⊎ (40 ≤ b.fdt.structure_offset)
unfolding any_meet ranges_of
any_meet-apart b reservation_end h = elim (Bool-cases (leb 40 b.fdt.structure_offset)) [
  | inl e ↦ inr (ground arith)
  | inr e ↦ elim (Bool-cases (length b.fdt.tokens == 0)) [
    | inl z ↦ inl (ground arith)
    | inr z ↦ absurd (ground arith)
  ]
]

-- What is said of a tree that is accepted.
unfoldable pub IsAccepted : (List ℕ → Bool) → Fdt → Type 0
IsAccepted is_utf8 f =
    IsPlaced f × ((vs : List Visit) × (walk is_utf8 f ≡ some (ok vs)) × AllInside f vs)

walked :
    (is_utf8 : List ℕ → Bool) (f : Fdt)
    → IsPlaced f
    → Given
        (and_then (walk is_utf8 f) (λ w. some (w >>= λ vs. ok f)))
        (λ r. Holds r (IsAccepted is_utf8))
unfolding IsAccepted
walked is_utf8 f here =
    let law = walk-AllInside is_utf8 f in
    elim (Option-cases (walk is_utf8 f)) [
      | inl e ↦ absurd (rw e at law)
      | inr (ok vs, e) ↦ (let inside = rw e at law in rw e (here, (vs, e, inside)))
      | inr (err x, e) ↦ rw e tt
    ]

compared :
    (is_utf8 : List ℕ → Bool) (b : Blocks) (r : Result FdtError ℕ)
    → IsRead b.fdt.bytes b
    → 40 ≤ length b.fdt.bytes
    → Given
        (elim r [
          | err e ↦ some (err e)
          | ok reservation_end ↦
              if any_meet [] (ranges_of b reservation_end)
              then some (err block_overlap)
              else and_then (walk is_utf8 b.fdt) (λ w. some (w >>= λ vs. ok b.fdt))
        ])
        (λ r. Holds r (IsAccepted is_utf8))
unfolding IsRead IsPlaced
compared is_utf8 b (err e) read long = tt
compared is_utf8 b (ok reservation_end) read long =
    elim (Bool-cases (any_meet [] (ranges_of b reservation_end))) [
      | inl e ↦ rw e tt
      | inr e ↦
          rw e (walked is_utf8 b.fdt (long, read.1, read.2, any_meet-apart b reservation_end e))
    ]

blocks-IsRead :
    (input : List ℕ)
    → Holds
        (read_total input >>= read_blocks)
        (λ b. IsRead b.fdt.bytes b × (40 ≤ length b.fdt.bytes))
unfolding IsRead
blocks-IsRead input =
    let whole = read_total-ge input in
    Holds_bind _ (read_total input) read_blocks (λ bytes e.
      let long = rw e at whole in
      Holds_map (IsRead bytes) (λ b. IsRead b.fdt.bytes b × (40 ≤ length b.fdt.bytes))
        (read_blocks bytes) (read_blocks-IsRead bytes)
        (λ b read. ((refl, read.1, rw (read.0) (read.2)), rw (read.0) long)))

-- Reading any bytes ends. What is accepted has its structure block, aligned, within it and clear of
-- the header, and a walk that succeeds with every property inside that block.
pub parse-IsAccepted :
    (is_utf8 : List ℕ → Bool) (input : List ℕ)
    → Given (parse is_utf8 input) (λ r. Holds r (IsAccepted is_utf8))
unfolding parse
parse-IsAccepted is_utf8 input =
    let law = blocks-IsRead input in
    elim (Result-cases (read_total input >>= read_blocks)) [
      | inr (e, h) ↦ rw (parse, h) tt
      | inl (b, h) ↦
          (let (read, long) = rw h at law in
            rw (parse, h)
              (Given-and_then (λ r. Holds r (IsAccepted is_utf8))
                (reservations (length b.fdt.bytes + 1) b.fdt.bytes b.reservations_offset) _
                (reservations-returns (length b.fdt.bytes + 1) b.fdt.bytes b.reservations_offset
                  (omega arith) (omega arith))
                (λ r later. compared is_utf8 b r read long)))
    ]
