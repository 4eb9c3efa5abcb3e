-- ===== src/Wallet/Mnemonic/Words.antt =====
-- The table WORDS of tools/wallet/src/core/mnemonic.rs, in its order, and the search in it.
mod AToL
mod MToZ
pub mod Order
pub mod Search
use AToL.*
use MToZ.*
use Prim.Native.Nat.{compare, Ordering}
use libra_v.Prelude.{
  ℕ, zero, suc, ◌+◌, ◌-◌, ◌/◌, List, [], ◌∷◌, ◌++◌, map, Text, codes, Option, none, some, get_elem?,
  length,
}

unfoldable pub words : List Text
words = map codes (
    words_a
    ++ (words_b
        ++ (words_c
            ++ (words_d
                ++ (words_e
                    ++ (words_f
                        ++ (words_g
                            ++ (words_h
                                ++ (words_i
                                    ++ (words_j
                                        ++ (words_k
                                            ++ (words_l
                                                ++ (words_m
                                                    ++ (words_n
                                                        ++ (words_o
                                                            ++ (words_p
                                                            ++ (words_q
                                                            ++ (words_r
                                                            ++ (words_s
                                                            ++ (words_t
                                                            ++ (words_u
                                                            ++ (words_v
                                                            ++ (words_w
                                                            ++ (words_y
                                                            ++ (words_z)))))))))))))))))))))))))

-- `Ord` of texts: by the first byte that differs, a prefix being less.
abbrev pub text_cmp : Text → Text → Ordering
text_cmp [] [] = Ordering.eq
text_cmp [] (b ∷ t) = Ordering.lt
text_cmp (a ∷ s) [] = Ordering.gt
text_cmp (a ∷ s) (b ∷ t) =
    let rest = text_cmp s t in
    elim (compare a b) [
      | Ordering.lt ↦ Ordering.lt
      | Ordering.eq ↦ rest
      | Ordering.gt ↦ Ordering.gt
    ]

module _ (table : List Text) (word : Text) where
  -- `binary_search` of the standard library between `lo` and `hi`; `fuel` bounds the halvings.
  unfoldable pub search_between : ℕ → ℕ → ℕ → Option ℕ
  search_between zero lo hi = none
  search_between (suc fuel) lo hi =
      let middle = lo + (hi - lo) / 2 in
      elim (compare lo hi) [
        | Ordering.lt ↦ elim (get_elem? table middle) [
          | none ↦ none
          | some w ↦ elim (text_cmp w word) [
            | Ordering.lt ↦ search_between fuel (suc middle) hi
            | Ordering.eq ↦ some middle
            | Ordering.gt ↦ search_between fuel lo middle
          ]
        ]
        | _ ↦ none
      ]

  unfoldable pub binary_search : Option ℕ
  binary_search = search_between (suc (length table)) 0 (length table)
