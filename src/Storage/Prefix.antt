-- ===== src/Storage/Prefix.antt =====
-- `CalculatePrefixEnd`: the keys from a prefix up to it are those with the prefix.
use bigtable_emulator.Common.{
  ℕ, ◌<◌, ◌+◌, ◌%◌, false, not, ◌&&◌, [], ◌∷◌, ◌≡◌, refl, arith, All, is_empty, List-cases, inl,
  inr, ap, ◌==◌,
}
use bigtable_emulator.Common.Bytes.{Bytes, less_bytes}
use bigtable_emulator.Table.Drop.{starts_with}
use bigtable_emulator.Storage.{strip, increment_last, calculate_prefix_end}

abbrev pub IsBytes : Bytes → Type 0
IsBytes = All (λ x. x < 256)

-- Behind a prefix of 0xFF bytes only there is no end.
all_ff :
    (prefix key : Bytes)
    → strip prefix ≡ []
    → IsBytes key
    → not (less_bytes key prefix) ≡ starts_with prefix key
unfolding strip
all_ff [] [] e b = refl
all_ff [] (y ∷ key) e b = refl
all_ff (x ∷ prefix) [] e b = refl
all_ff (x ∷ prefix) (y ∷ key) e b = elim (List-cases (strip prefix)) [
  | inr (z, zs, more) ↦ absurd (let h = rw (more, strip) at e in ground (arith, h))
  | inl none_left ↦
      let h = rw (none_left, strip) at e in
      let high : x ≡ 255 = ground (arith, h) in
      ground (arith, high, all_ff prefix key none_left b.1, b.0)
]

end-last :
    (x : ℕ) (prefix : Bytes)
    → strip prefix ≡ []
    → (x == 255) ≡ false
    → calculate_prefix_end (x ∷ prefix) ≡ ((x + 1) % 256) ∷ []
unfolding calculate_prefix_end strip increment_last
end-last x prefix none_left low = rw (none_left, low, calculate_prefix_end, strip) refl

end-more :
    (x z : ℕ) (prefix zs : Bytes)
    → strip prefix ≡ z ∷ zs
    → calculate_prefix_end (x ∷ prefix) ≡ x ∷ calculate_prefix_end prefix
unfolding calculate_prefix_end strip increment_last
end-more x z prefix zs more = rw (more, calculate_prefix_end, strip) refl

not_ff :
    (x : ℕ) (prefix : Bytes)
    → strip prefix ≡ []
    → is_empty (strip (x ∷ prefix)) ≡ false
    → (x == 255) ≡ false
unfolding strip
not_ff x prefix none_left e = let h = rw (none_left, strip) at e in ground (arith, h)

none_before : (key : Bytes) → less_bytes key [] ≡ false
none_before [] = refl
none_before (x ∷ key) = refl

-- For a prefix with a byte that is not 0xFF, the keys that are not before it but before the result
-- of `CalculatePrefixEnd` are exactly the keys that start with the prefix.
pub calculate_prefix_end_lem :
    (prefix key : Bytes)
    → IsBytes prefix
    → IsBytes key
    → is_empty (strip prefix) ≡ false
    → (not (less_bytes key prefix) && less_bytes key (calculate_prefix_end prefix))
      ≡ starts_with prefix key
unfolding strip
calculate_prefix_end_lem [] key p b e = absurd (ground (arith, e))
calculate_prefix_end_lem (x ∷ prefix) [] p b e = ground arith
calculate_prefix_end_lem (x ∷ prefix) (y ∷ key) p b e = elim (List-cases (strip prefix)) [
  | inl none_left ↦
      let low = not_ff x prefix none_left e in
      rw (end-last x prefix none_left low)
        (ground (arith, low, all_ff prefix key none_left b.1, none_before key, p.0, b.0))
  | inr (z, zs, more) ↦
      rw (end-more x z prefix zs more)
        (ground (arith, calculate_prefix_end_lem prefix key p.1 b.1 (ap is_empty more)))
]
