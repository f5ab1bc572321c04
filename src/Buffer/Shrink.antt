-- ===== src/Buffer/Shrink.antt =====
-- How `write_bytes_at` takes the trailing groups that are zero off a presence map.
use m_fast.Common.{
  ℕ, zero, suc, ◌+◌, ◌<◌, ◌≡◌, ◌≢◌, refl, sym, ap, ◌∙◌, true, false, some, List, [], ◌∷◌, ◌++◌,
  ◌==◌, if◌then◌else◌, length, take, drop, take-length_append, append_assoc, arith,
}
use m_fast.Wire.Istream.{has_stop}
use m_fast.Wire.Ostream.{or_stop}
use m_fast.Buffer.Ostreambuf.{byte_at, skip_zeros, move_up, mark, cut_back, shrink_at}

abbrev pub zeros : ℕ → List ℕ
zeros zero = []
zeros (suc k) = 0 ∷ zeros k

zero_plus : (n : ℕ) → 0 + n ≡ n
zero_plus n = omega arith

plus_zero : (n : ℕ) → n + 0 ≡ n
plus_zero n = omega arith

suc_plus : (n k : ℕ) → suc n + k ≡ suc (n + k)
suc_plus n k = omega arith

plus_suc : (n k : ℕ) → n + suc k ≡ suc (n + k)
plus_suc n k = omega arith

-- The bytes at and behind the end of `p`.
byte_at-append : (p q : List ℕ) (j : ℕ) → byte_at (length p + j) (p ++ q) ≡ byte_at j q
byte_at-append [] q j = rw (zero_plus j) refl
byte_at-append (x ∷ p) q j = rw (suc_plus (length p) j) (byte_at-append p q j)

byte_at_head : (p q : List ℕ) (b : ℕ) → byte_at (length p) (p ++ (b ∷ q)) ≡ b
byte_at_head [] q b = refl
byte_at_head (x ∷ p) q b = byte_at_head p q b

byte_at_next : (p q : List ℕ) (s b : ℕ) → byte_at (suc (length p)) (p ++ (s ∷ b ∷ q)) ≡ b
byte_at_next [] q s b = refl
byte_at_next (x ∷ p) q s b = byte_at_next p q s b

take_behind : (p q : List ℕ) (s : ℕ) → take (suc (length p)) (p ++ (s ∷ q)) ≡ p ++ (s ∷ [])
take_behind [] q s = refl
take_behind (x ∷ p) q s = ap (◌∷◌ x) (take_behind p q s)

byte_at-zeros : (k j : ℕ) (q : List ℕ) → j < k → byte_at j (zeros k ++ q) ≡ 0
byte_at-zeros zero j q h = absurd (omega arith)
byte_at-zeros (suc k) zero q h = refl
byte_at-zeros (suc k) (suc j) q h = byte_at-zeros k j q (omega arith)

byte_at_behind : (k : ℕ) (q : List ℕ) (c : ℕ) → byte_at k (zeros k ++ (c ∷ q)) ≡ c
byte_at_behind zero q c = refl
byte_at_behind (suc k) q c = byte_at_behind k q c

drop-zeros : (k : ℕ) (q : List ℕ) (c : ℕ) → drop (suc k) (zeros k ++ (c ∷ q)) ≡ q
drop-zeros zero q c = refl
drop-zeros (suc k) q c = drop-zeros k q c

-- A byte `b` with `k` zeros behind it.
abbrev pub run : List ℕ → ℕ → ℕ → List ℕ → List ℕ
run p b k q = p ++ (b ∷ (zeros k ++ q))

byte_at-run : (p q : List ℕ) (b k c : ℕ) → byte_at (suc (length p + k)) (run p b k (c ∷ q)) ≡ c
byte_at-run p q b k c =
    rw (sym (plus_suc (length p) k)) (byte_at-append p (b ∷ (zeros k ++ (c ∷ q))) (suc k))
    ∙ byte_at_behind k q c

drop-run : (p q : List ℕ) (b k c : ℕ) → drop (suc (suc (length p + k))) (run p b k (c ∷ q)) ≡ q
drop-run [] q b k c = rw (zero_plus k) (drop-zeros k q c)
drop-run (x ∷ p) q b k c =
    ap (λ i. drop (suc (suc i)) (run (x ∷ p) b k (c ∷ q))) (suc_plus (length p) k)
    ∙ drop-run p q b k c

skip_zeros_step :
    (i : ℕ) (w : List ℕ) → byte_at (suc i) w ≡ 0 → skip_zeros (suc i) w ≡ skip_zeros i w
unfolding skip_zeros
skip_zeros_step i w e = rw e refl

skip_zeros_end : (i : ℕ) (w : List ℕ) → byte_at i w ≢ 0 → skip_zeros i w ≡ i
unfolding skip_zeros
skip_zeros_end zero w ne = refl
skip_zeros_end (suc i) w ne = ground arith

skip_zeros_while :
    (n k : ℕ) (w : List ℕ)
    → ((j : ℕ) → j < k → byte_at (n + suc j) w ≡ 0)
    → skip_zeros (n + k) w ≡ skip_zeros n w
skip_zeros_while n zero w h = rw (plus_zero n) refl
skip_zeros_while n (suc k) w h =
    rw (plus_suc n k) (skip_zeros_step (n + k) w (rw (sym (plus_suc n k)) (h k (omega arith))))
    ∙ skip_zeros_while n k w (λ j l. h j (omega arith))

skip_zeros-run :
    (p q : List ℕ) (b k : ℕ) → b ≢ 0 → skip_zeros (length p + k) (run p b k q) ≡ length p
skip_zeros-run p q b k ne =
    skip_zeros_while (length p) k (run p b k q)
      (λ j l. byte_at-append p (b ∷ (zeros k ++ q)) (suc j) ∙ byte_at-zeros k j q l)
    ∙ skip_zeros_end (length p) (run p b k q) (λ e. ne (sym (byte_at_head p (zeros k ++ q) b) ∙ e))

skip_zeros-start : (k : ℕ) (q : List ℕ) → skip_zeros k (zeros (suc k) ++ q) ≡ 0
unfolding skip_zeros
skip_zeros-start k q =
    ap (λ i. skip_zeros i (zeros (suc k) ++ q)) (sym (zero_plus k))
    ∙ skip_zeros_while 0 k (zeros (suc k) ++ q)
        (λ j l. rw (zero_plus (suc j)) (byte_at-zeros k j q l))

move_up_head :
    (p q : List ℕ) (b end : ℕ)
    → move_up end (length p) (p ++ (b ∷ q)) ≡ p ++ (or_stop b ∷ drop end (p ++ (b ∷ q)))
move_up_head p q b end = λ i.
    take-length_append p (b ∷ q) i ++ (or_stop (byte_at_head p q b i) ∷ drop end (p ++ (b ∷ q)))

move_up_behind :
    (p q : List ℕ) (s b end : ℕ)
    → move_up end (suc (length p)) (p ++ (s ∷ b ∷ q))
      ≡ p ++ (s ∷ or_stop b ∷ drop end (p ++ (s ∷ b ∷ q)))
move_up_behind p q s b end =
    (λ i.
      take_behind p (b ∷ q) s i ++ (or_stop (byte_at_next p q s b i) ∷ drop end (p ++ (s ∷ b ∷ q))))
    ∙ append_assoc p (s ∷ []) _

-- What `mark` leaves where the search has stopped at `b`: the stop bit goes on `b`, or on the byte
-- behind it where `b` has a stop bit of its own.
mark_group :
    (p q : List ℕ) (b end : ℕ)
    → has_stop b ≡ false
    → mark end (length p) (p ++ (b ∷ q)) ≡ p ++ (or_stop b ∷ drop end (p ++ (b ∷ q)))
mark_group p q b end h =
    ap (λ t. move_up end (if t then suc (length p) else length p) (p ++ (b ∷ q)))
      (ap has_stop (byte_at_head p q b) ∙ h)
    ∙ move_up_head p q b end

mark_behind :
    (p q : List ℕ) (s b end : ℕ)
    → has_stop s ≡ true
    → mark end (length p) (p ++ (s ∷ b ∷ q)) ≡ p ++ (s ∷ or_stop b ∷ drop end (p ++ (s ∷ b ∷ q)))
mark_behind p q s b end h =
    ap (λ t. move_up end (if t then suc (length p) else length p) (p ++ (s ∷ b ∷ q)))
      (ap has_stop (byte_at_head p (b ∷ q) s) ∙ h)
    ∙ move_up_behind p q s b end

stop_not_zero : (s : ℕ) → has_stop s ≡ true → s ≢ 0
stop_not_zero s h e = ground arith

-- Behind a stop bit comes a group that is 0, or the last byte of the map.
mark_first_zero :
    (p q : List ℕ) (s k end : ℕ)
    → has_stop s ≡ true
    → mark end (length p) (run p s k (0x80 ∷ q)) ≡ p ++ (s ∷ 0x80 ∷ drop end (run p s k (0x80 ∷ q)))
mark_first_zero p q s zero end h = mark_behind p q s 0x80 end h
mark_first_zero p q s (suc k) end h = mark_behind p (zeros k ++ (0x80 ∷ q)) s 0 end h

-- The ways in which `shrink_at` ends.
pub shrink_at_group :
    (p q : List ℕ) (b k : ℕ)
    → b ≢ 0
    → has_stop b ≡ false
    → shrink_at (suc (suc (length p + k))) (run p b k (0x80 ∷ q)) ≡ some (p ++ (or_stop b ∷ q))
unfolding shrink_at cut_back
shrink_at_group p q b k ne h =
    let end = suc (suc (length p + k)) in
    let w = run p b k (0x80 ∷ q) in
    ap (λ t. if t == 0x80 then cut_back end (suc (length p + k)) w else some w)
      (byte_at-run p q b k 0x80)
    ∙ ap (λ i. some (mark end i w)) (skip_zeros-run p (0x80 ∷ q) b k ne)
    ∙ ap some (
        mark_group p (zeros k ++ (0x80 ∷ q)) b end h
        ∙ ap (λ r. p ++ (or_stop b ∷ r)) (drop-run p q b k 0x80))

pub shrink_at_behind :
    (p q : List ℕ) (s k : ℕ)
    → has_stop s ≡ true
    → shrink_at (suc (suc (length p + k))) (run p s k (0x80 ∷ q)) ≡ some (p ++ (s ∷ 0x80 ∷ q))
unfolding shrink_at cut_back
shrink_at_behind p q s k h =
    let end = suc (suc (length p + k)) in
    let w = run p s k (0x80 ∷ q) in
    ap (λ t. if t == 0x80 then cut_back end (suc (length p + k)) w else some w)
      (byte_at-run p q s k 0x80)
    ∙ ap (λ i. some (mark end i w)) (skip_zeros-run p (0x80 ∷ q) s k (stop_not_zero s h))
    ∙ ap some
        (mark_first_zero p q s k end h ∙ ap (λ r. p ++ (s ∷ 0x80 ∷ r)) (drop-run p q s k 0x80))

pub shrink_at_start :
    (q : List ℕ) (k : ℕ) → shrink_at (suc (suc k)) (zeros (suc k) ++ (0x80 ∷ q)) ≡ some (0x80 ∷ q)
unfolding shrink_at cut_back
shrink_at_start q k =
    let w = zeros (suc k) ++ (0x80 ∷ q) in
    ap (λ t. if t == 0x80 then cut_back (suc (suc k)) (suc k) w else some w)
      (byte_at_behind (suc k) q 0x80)
    ∙ ap (λ i. some (mark (suc (suc k)) i w)) (skip_zeros-start k (0x80 ∷ q))
    ∙ ap (λ r. some (0x80 ∷ r)) (drop-zeros k q 0x80)

pub shrink_at_kept :
    (p q : List ℕ) (c : ℕ)
    → c ≢ 0x80
    → shrink_at (suc (length p)) (p ++ (c ∷ q)) ≡ some (p ++ (c ∷ q))
unfolding shrink_at
shrink_at_kept p q c ne = rw (byte_at_head p q c) (ground arith)
