-- ===== src/Buffer/Stripped.antt =====
-- `write_bytes_at` with `shrink` on the bytes of a presence map.
use m_fast.Common.{
  ℕ, zero, suc, ◌+◌, ◌≤◌, ◌≡◌, ◌≢◌, refl, sym, subst, ◌∙◌, ◌⊎◌, inl, inr, true, some, List, [], ◌∷◌,
  ◌++◌, length, arith,
}
use m_fast.Wire.Istream.{has_stop}
use m_fast.Wire.Ostream.{set_stop}
use m_fast.Wire.Groups.{IsGroup}
use m_fast.Buffer.Ostreambuf.{write_bytes_at, shrink_at}
use m_fast.Buffer.Shrink.{zeros}
use m_fast.Buffer.WriteBytes.{
  write_bytes_at_room, set_stop-append, set_stop-zeros, write_kept, write_group, write_zeros_behind,
  write_zeros_start,
}

-- The byte before a map whose groups are all 0 has a stop bit, or the map has a second group and starts
-- the buffer.
abbrev pub Anchor : List ℕ → ℕ → Type 0
Anchor pre k =
    ((pre ≡ []) × (1 ≤ k)) ⊎ ((p : List ℕ) × (s : ℕ) × (pre ≡ p ++ (s ∷ [])) × (has_stop s ≡ true))

abbrev pub Anchored : List ℕ → List ℕ → ℕ → ℕ → Type 0
Anchored pre front b k = (b ≢ 0) ⊎ ((front ≡ []) × (b ≡ 0) × Anchor pre k)

abbrev Stripped : List ℕ → List ℕ → List ℕ → ℕ → ℕ → Type 0
Stripped pre post front b k =
    shrink_at (length pre + length (set_stop (front ++ (b ∷ zeros k))))
      (pre ++ (set_stop (front ++ (b ∷ zeros k)) ++ post))
    ≡ some (pre ++ (set_stop (front ++ (b ∷ [])) ++ post))

Stripped-group :
    (pre post front : List ℕ) (b k : ℕ) → b ≢ 0 → IsGroup b → Stripped pre post front b k
unfolding set_stop
Stripped-group pre post front b zero ne h =
    rw (set_stop-append front [] b) (write_kept pre front post b ne h)
Stripped-group pre post front b (suc k) ne h =
    rw (set_stop-append front [] b, set_stop-append front (zeros (suc k)) b, set_stop-zeros b k)
      (write_group pre front post b k ne h)

set_stop_zero : set_stop (0 ∷ []) ≡ 0x80 ∷ []
unfolding set_stop
set_stop_zero = refl

Stripped-zeros : (pre post : List ℕ) (k : ℕ) → Anchor pre k → Stripped pre post [] 0 k
Stripped-zeros pre post zero (inl (e, l)) = absurd (omega arith)
Stripped-zeros pre post (suc k) (inl (e, l)) =
    subst (λ p. Stripped p post [] 0 (suc k)) (sym e)
      (rw (set_stop_zero, set_stop-zeros 0 k) (write_zeros_start post k))
Stripped-zeros pre post zero (inr (p, s, e, h)) =
    subst (λ p'. Stripped p' post [] 0 0) (sym e)
      (rw set_stop_zero (write_zeros_behind p post s 0 h))
Stripped-zeros pre post (suc k) (inr (p, s, e, h)) =
    subst (λ p'. Stripped p' post [] 0 (suc k)) (sym e)
      (rw (set_stop_zero, set_stop-zeros 0 k) (write_zeros_behind p post s (suc k) h))

Stripped-Anchored :
    (pre post front : List ℕ) (b k : ℕ)
    → Anchored pre front b k
    → IsGroup b
    → Stripped pre post front b k
Stripped-Anchored pre post front b k (inl ne) h = Stripped-group pre post front b k ne h
Stripped-Anchored pre post front b k (inr (e, z, a)) h =
    subst (λ f. Stripped pre post f b k) (sym e)
      (subst (λ c. Stripped pre post [] c k) (sym z) (Stripped-zeros pre post k a))

-- `write_bytes_at`, told to shrink, writes the groups of a presence map into the room left for it without
-- the zeros at their end, the stop bit on the last group that stays, and moves what follows up. If all
-- groups are 0 one stays, and then the byte before the map has a stop bit, or the map starts the buffer
-- and has a second group.
pub write_bytes_at-set_stop :
    (pre room post front : List ℕ) (b k : ℕ)
    → Anchored pre front b k
    → IsGroup b
    → length (set_stop (front ++ (b ∷ zeros k))) ≡ length room
    → write_bytes_at (set_stop (front ++ (b ∷ zeros k))) (length pre) true (pre ++ (room ++ post))
      ≡ some (pre ++ (set_stop (front ++ (b ∷ [])) ++ post))
write_bytes_at-set_stop pre room post front b k a h e =
    write_bytes_at_room pre room post (set_stop (front ++ (b ∷ zeros k))) true e
    ∙ Stripped-Anchored pre post front b k a h
