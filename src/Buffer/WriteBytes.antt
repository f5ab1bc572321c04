-- ===== src/Buffer/WriteBytes.antt =====
-- `write_bytes_at` writes a presence map without the groups at its end that are 0.
use m_fast.Common.{
  ℕ, zero, suc, ◌+◌, ◌≡◌, ◌≢◌, refl, sym, ap, ◌∙◌, Bool, true, some, List, [], ◌∷◌, ◌++◌, leb,
  if◌then◌else◌, length, drop, length-append, take-length_append, drop-length_append, append_assoc,
  arith,
}
use m_fast.Wire.Istream.{has_stop}
use m_fast.Wire.Ostream.{or_stop, set_stop}
use m_fast.Wire.Groups.{IsGroup, has_stop_group, or_stop_bits}
use m_fast.Buffer.Ostreambuf.{copy_at, shrink_at, write_bytes_at}
use m_fast.Buffer.Shrink.{
  zeros, run, shrink_at_group, shrink_at_behind, shrink_at_start, shrink_at_kept,
}

-- Bytes written over a room of their length.
copy_at_room :
    (pre room post bytes : List ℕ)
    → length bytes ≡ length room
    → copy_at bytes (length pre) (pre ++ (room ++ post)) ≡ pre ++ (bytes ++ post)
copy_at_room pre room post bytes e =
    let w = pre ++ (room ++ post) in
    (λ i. take-length_append pre (room ++ post) i ++ (bytes ++ drop (length pre + e i) w))
    ∙ ap (λ r. pre ++ (bytes ++ r))
        (ap (λ n. drop n w) (sym (length-append pre room))
          ∙ ap (λ r. drop (length (pre ++ room)) r) (sym (append_assoc pre room post))
          ∙ drop-length_append (pre ++ room) post)

room_is_enough :
    (pre room post bytes : List ℕ)
    → length bytes ≡ length room
    → leb (length pre + length bytes) (length (pre ++ (room ++ post))) ≡ true
room_is_enough pre room post bytes e =
    rw (length-append pre (room ++ post), length-append room post) (ground arith)

pub write_bytes_at_room :
    (pre room post bytes : List ℕ) (shrink : Bool)
    → length bytes ≡ length room
    → write_bytes_at bytes (length pre) shrink (pre ++ (room ++ post)) ≡ (
        if shrink
        then shrink_at (length pre + length bytes) (pre ++ (bytes ++ post))
        else some (pre ++ (bytes ++ post)))
unfolding write_bytes_at
write_bytes_at_room pre room post bytes shrink e =
    rw (room_is_enough pre room post bytes e, copy_at_room pre room post bytes e) refl

pub set_stop-append :
    (front r : List ℕ) (b : ℕ) → set_stop (front ++ (b ∷ r)) ≡ front ++ set_stop (b ∷ r)
unfolding set_stop
set_stop-append [] r b = refl
set_stop-append (x ∷ []) r b = refl
set_stop-append (x ∷ y ∷ front) r b = ap (◌∷◌ x) (set_stop-append (y ∷ front) r b)

pub set_stop-zeros : (b k : ℕ) → set_stop (b ∷ zeros (suc k)) ≡ b ∷ (zeros k ++ (0x80 ∷ []))
unfolding set_stop
set_stop-zeros b zero = refl
set_stop-zeros b (suc k) = ap (◌∷◌ b) (set_stop-zeros 0 k)

regroup :
    (pre front end post : List ℕ)
    → pre ++ ((front ++ end) ++ post) ≡ (pre ++ front) ++ (end ++ post)
regroup pre front end post =
    ap (λ r. pre ++ r) (append_assoc front end post) ∙ sym (append_assoc pre front (end ++ post))

joined_length :
    (pre front end : List ℕ)
    → length pre + length (front ++ end) ≡ length (pre ++ front) + length end
joined_length pre front end = omega (arith, length-append front end, length-append pre front)

-- The bytes in front of `end` are seen as one list.
shrink_at_joined :
    (pre front end end' post : List ℕ)
    → shrink_at (length (pre ++ front) + length end) ((pre ++ front) ++ (end ++ post))
      ≡ some ((pre ++ front) ++ (end' ++ post))
    → shrink_at (length pre + length (front ++ end)) (pre ++ ((front ++ end) ++ post))
      ≡ some (pre ++ ((front ++ end') ++ post))
shrink_at_joined pre front end end' post h =
    (λ i. shrink_at (joined_length pre front end i) (regroup pre front end post i))
    ∙ h
    ∙ ap some (sym (regroup pre front end' post))

length-zeros : (k : ℕ) → length (zeros k) ≡ k
length-zeros zero = refl
length-zeros (suc k) = ap suc (length-zeros k)

-- `b` and `k` zeros, the stop bit behind them, as `commit` hands them over.
abbrev pub unshrunk : ℕ → ℕ → List ℕ
unshrunk b k = b ∷ (zeros k ++ (0x80 ∷ []))

length-unshrunk : (n b k : ℕ) → n + length (unshrunk b k) ≡ suc (suc (n + k))
length-unshrunk n b k = omega (arith, length-append (zeros k) (0x80 ∷ []), length-zeros k)

unshrunk-append :
    (p post : List ℕ) (b k : ℕ) → p ++ (unshrunk b k ++ post) ≡ run p b k (0x80 ∷ post)
unshrunk-append p post b k = ap (λ r. p ++ (b ∷ r)) (append_assoc (zeros k) (0x80 ∷ []) post)

stop_not_bare : (b : ℕ) → b ≢ 0 → IsGroup b → or_stop b ≢ 0x80
stop_not_bare b ne h e = absurd (ne (omega (arith, sym (or_stop_bits b h) ∙ e)))

-- The last group is not 0: nothing is taken off.
pub write_kept :
    (pre front post : List ℕ) (b : ℕ)
    → b ≢ 0
    → IsGroup b
    → shrink_at
        (length pre + length (front ++ (or_stop b ∷ [])))
        (pre ++ ((front ++ (or_stop b ∷ [])) ++ post))
      ≡ some (pre ++ ((front ++ (or_stop b ∷ [])) ++ post))
write_kept pre front post b ne h =
    shrink_at_joined pre front (or_stop b ∷ []) (or_stop b ∷ []) post (
      ap (λ n. shrink_at n ((pre ++ front) ++ (or_stop b ∷ post))) (omega arith)
      ∙ shrink_at_kept (pre ++ front) post (or_stop b) (stop_not_bare b ne h))

-- The last group that is not 0 has zeros behind it.
pub write_group :
    (pre front post : List ℕ) (b k : ℕ)
    → b ≢ 0
    → IsGroup b
    → shrink_at
        (length pre + length (front ++ unshrunk b k))
        (pre ++ ((front ++ unshrunk b k) ++ post))
      ≡ some (pre ++ ((front ++ (or_stop b ∷ [])) ++ post))
write_group pre front post b k ne h =
    shrink_at_joined pre front (unshrunk b k) (or_stop b ∷ []) post (
      (λ i.
        shrink_at (length-unshrunk (length (pre ++ front)) b k i)
          (unshrunk-append (pre ++ front) post b k i))
      ∙ shrink_at_group (pre ++ front) post b k ne (has_stop_group b h))

behind_length :
    (p : List ℕ) (s k : ℕ)
    → length (p ++ (s ∷ [])) + length (zeros k ++ (0x80 ∷ [])) ≡ suc (suc (length p + k))
behind_length p s k =
    omega (arith, length-append p (s ∷ []), length-append (zeros k) (0x80 ∷ []), length-zeros k)

-- Every group is 0: one is left. The search needs a byte with a stop bit before the map, or the start of
-- the buffer.
pub write_zeros_behind :
    (p post : List ℕ) (s k : ℕ)
    → has_stop s ≡ true
    → shrink_at
        (length (p ++ (s ∷ [])) + length (zeros k ++ (0x80 ∷ [])))
        ((p ++ (s ∷ [])) ++ ((zeros k ++ (0x80 ∷ [])) ++ post))
      ≡ some ((p ++ (s ∷ [])) ++ (0x80 ∷ post))
write_zeros_behind p post s k h =
    (λ i.
      shrink_at (behind_length p s k i) (
        (append_assoc p (s ∷ []) ((zeros k ++ (0x80 ∷ [])) ++ post) ∙ unshrunk-append p post s k)
          i))
    ∙ shrink_at_behind p post s k h
    ∙ ap some (sym (append_assoc p (s ∷ []) (0x80 ∷ post)))

pub write_zeros_start :
    (post : List ℕ) (k : ℕ)
    → shrink_at (0 + length (zeros (suc k) ++ (0x80 ∷ []))) ((zeros (suc k) ++ (0x80 ∷ [])) ++ post)
      ≡ some (0x80 ∷ post)
write_zeros_start post k =
    (λ i. shrink_at (length-unshrunk 0 0 k i) (unshrunk-append [] post 0 k i))
    ∙ ap (λ n. shrink_at n (zeros (suc k) ++ (0x80 ∷ post))) (omega arith)
    ∙ shrink_at_start post k
