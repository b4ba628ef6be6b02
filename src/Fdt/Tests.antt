-- ===== src/Fdt/Tests.antt =====
-- A tree of one node without a property: a header of 40 bytes, an empty list of reservations, and the
-- tokens for the start of the root, its end and the end of the tree.
use switchvisor.Base.{
  ◌≡◌, refl, ℕ, ◌/◌, ◌%◌, Bool, true, List, [], ◌∷◌, ◌++◌, replicate, some, ok, err, Holds, Given,
}
use switchvisor.Fdt.{
  header, parse, word, block, read_total, read_blocks, is_bad_header, ranges_of, any_meet,
  reservations, walk, walk_from, step, act, begin_node, name_at, enter, is_bad_name, extended,
  leave, finish, align4,
}
use switchvisor.Fdt.Parse.{IsAccepted, parse-IsAccepted}

abbrev be : ℕ → List ℕ
be x = 0 ∷ 0 ∷ x / 256 ∷ x % 256 ∷ []

abbrev tree : List ℕ
tree =
    (0xd0 ∷ 0x0d ∷ 0xfe ∷ 0xed ∷ [])
    ++ be 72
    ++ be 56
    ++ be 72
    ++ be 40
    ++ be 17
    ++ be 16
    ++ be 0
    ++ be 0
    ++ be 16
    ++ replicate 16 0
    ++ be 1
    ++ be 0
    ++ be 2
    ++ be 9

abbrev any_text : List ℕ → Bool
any_text bytes = true

accepted :
    parse any_text tree
    ≡ some (
        ok (record {
          bytes = tree;
          structure_offset = 56;
          tokens = be 1 ++ be 0 ++ be 2 ++ be 9;
          strings = [];
        }))
unfolding parse word block read_total read_blocks is_bad_header ranges_of any_meet reservations walk
    walk_from step act begin_node name_at enter is_bad_name extended leave finish align4
accepted = refl

too_short : parse any_text (0xd0 ∷ []) ≡ some (err header)
unfolding parse read_total
too_short = refl

parse-IsAccepted_example : Given (parse any_text tree) (λ r. Holds r (IsAccepted any_text))
parse-IsAccepted_example = parse-IsAccepted any_text tree
