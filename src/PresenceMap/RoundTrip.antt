-- ===== src/PresenceMap/RoundTrip.antt =====
-- What `encoder_presence_map` writes, `decoder_presence_map` gives back.
use native.Mathlib.Nat.{pow-suc, mul-le-mul_right, one-le-pow}
use m_fast.Common.{
  ℕ, zero, suc, ◌+◌, ◌-◌, ◌*◌, ◌/◌, ◌^◌, ◌≤◌, ◌<◌, ◌≡◌, refl, sym, ap, subst, ◌∙◌, Bool, true,
  false, Option, none, some, List, [], ◌∷◌, ◌++◌, All, length, length-append, append-nil,
  append_assoc, arith,
}
use m_fast.Wire.Outcome.{ok}
use m_fast.Wire.Ostream.{set_stop, or_stop}
use m_fast.Wire.Groups.{IsGroup}
use m_fast.Field.Storage.{Yields}
use m_fast.Buffer.Ostreambuf.{write_bytes_at}
use m_fast.Buffer.WriteBytes.{set_stop-append}
use m_fast.PresenceMap.Bits.{bits, group_bits}
use m_fast.PresenceMap.Decoder.{DecoderMap, decode_pmap, map_source}
use m_fast.PresenceMap.DecoderBits.{Yields-decode_pmap}
use m_fast.PresenceMap.Encoder.{EncoderMap, init, set_next_bit, commit}
use m_fast.PresenceMap.EncoderSteps.{encoder, bit_value}
use m_fast.PresenceMap.EncoderBits.{falses, bits_seven, bits_first, group_bits-append}
use m_fast.PresenceMap.SetNextBit.{set_next_bit_in_byte}
use m_fast.PresenceMap.EncoderRun.{
  then_bits, set_bits, bytes_at, state_at, Fits, Reaches, value_below, All-append, append_three,
}
use m_fast.PresenceMap.EncoderFlush.{set_bits_from, write_word}
use m_fast.PresenceMap.EncoderCommit.{commit-encoder, more_times}

abbrev pub then_commit : Bool → Option (EncoderMap × List ℕ) → Option (List ℕ)
then_commit overlong none = none
then_commit overlong (some (m, w)) = commit overlong m w

-- A presence map from `init` to `commit`: `pre` stands in the stream before, `room` is what `skip`
-- leaves, and `post` was written behind it before `commit`.
abbrev pub encode_pmap : Bool → List Bool → List ℕ → List ℕ → List ℕ → Option (List ℕ)
encode_pmap overlong bs pre room post =
    then_commit overlong (set_bits bs (init (length bs) pre, pre ++ (room ++ post)))

-- The groups of the map: those written, those in the word, and the last one.
abbrev Groups : List Bool → List ℕ → Type 0
Groups bs gs = All IsGroup gs × (1 ≤ length gs) × ((k : ℕ) × (group_bits gs ≡ bs ++ falses k))

no_bits : (n : ℕ) → 2 * 0 + n ≡ n
no_bits n = omega arith

no_bytes : (n : ℕ) → n ≡ n + 0
no_bytes n = omega arith

first_bit :
    (pre room post : List ℕ) (x : ℕ) (v : Bool)
    → set_next_bit v (encoder [] 0 7 (length pre) x) (pre ++ (room ++ post))
      ≡ some (state_at pre post [] [] room (bit_value v) 6 x)
first_bit pre room post x v =
    set_next_bit_in_byte v [] 0 6 (length pre) x (pre ++ (room ++ post)) (omega arith) (omega arith)
      tt
    ∙ (λ i.
        some (
          encoder [] (no_bits (bit_value v) i) 6 (no_bytes (length pre) i) x,
          pre ++ (room ++ post),
        ))

Reaches-set_bits :
    (pre room post : List ℕ) (b : Bool) (bs : List Bool)
    → (let n = length (b ∷ bs) in length room ≡ (n + 6) / 7)
    → Reaches pre post
        (7 * length room - length (b ∷ bs))
        0
        (b ∷ bs)
        (set_bits (b ∷ bs) (init (length (b ∷ bs)) pre, pre ++ (room ++ post)))
Reaches-set_bits pre room post b bs e =
    let n = length (b ∷ bs) in
    let x = (n + 6) / 7 in
    subst (λ o. Reaches pre post (7 * length room - n) 0 (b ∷ bs) (then_bits o (set_bits bs)))
      (sym (first_bit pre room post x b))
      (set_bits_from pre post [] [] room (bit_value b) 6 1 x (7 * length room - n) (b ∷ []) bs
        (refl, omega arith, value_below b, tt, tt, omega arith, omega arith, bits_first b))

zero_sum : (n : ℕ) → 0 + n ≡ n
zero_sum n = omega arith

suc_sum : (n m : ℕ) → suc n + m ≡ suc (n + m)
suc_sum n m = omega arith

double_first : (r s : ℕ) → 2 ^ suc r * 2 ^ s ≡ 2 * (2 ^ r * 2 ^ s)
double_first r s = rw (pow-suc 2 r) (grind arith)

pow_sum : (r s : ℕ) → 2 ^ r * 2 ^ s ≡ 2 ^ (r + s)
pow_sum zero s = rw (zero_sum s) (omega arith)
pow_sum (suc r) s =
    rw (suc_sum r s) (omega (arith, pow_sum r s, pow-suc 2 (r + s), double_first r s))

last_below : (p r s : ℕ) → r + s ≡ 7 → p < 2 ^ r → p * 2 ^ s < 128
last_below p r s e h =
    subst (λ k. p * 2 ^ s < 2 ^ k) e
      (omega (
        arith,
        more_times p (2 ^ s),
        mul-le-mul_right (2 ^ s) h,
        pow_sum r s,
        one-le-pow s 2 (omega arith),
      ))

length_word : (gs : List ℕ) (c : ℕ) → length (set_stop (gs ++ (c ∷ []))) ≡ length gs + 1
unfolding set_stop
length_word gs c = ap length (set_stop-append gs [] c) ∙ length-append gs (or_stop c ∷ [])

-- The stop bit goes on the last group only.
set_stop_last :
    (done gs : List ℕ) (c : ℕ)
    → done ++ set_stop (gs ++ (c ∷ [])) ≡ set_stop (done ++ (gs ++ (c ∷ [])))
set_stop_last done gs c =
    ap (λ u. done ++ u) (set_stop-append gs [] c)
    ∙ sym (append_assoc done gs (set_stop (c ∷ [])))
    ∙ sym (set_stop-append (done ++ gs) [] c)
    ∙ ap set_stop (append_assoc done gs (c ∷ []))

group_bits_last :
    (done gs : List ℕ) (p r s : ℕ)
    → r + s ≡ 7
    → group_bits (done ++ (gs ++ ((p * 2 ^ s) ∷ [])))
      ≡ (group_bits done ++ (group_bits gs ++ bits r p)) ++ falses s
group_bits_last done gs p r s e =
    group_bits-append done (gs ++ ((p * 2 ^ s) ∷ []))
    ∙ ap (λ u. group_bits done ++ u)
        (group_bits-append gs ((p * 2 ^ s) ∷ [])
          ∙ ap (λ u. group_bits gs ++ u) (append-nil (bits 7 (p * 2 ^ s)) ∙ bits_seven s r p e))
    ∙ append_three (group_bits done) (group_bits gs) (bits r p) (falses s)

-- What `commit` writes behind the groups that are there.
committed :
    (pre post done gs room : List ℕ) (p s r x slack : ℕ) (bs : List Bool)
    → slack ≤ 6
    → Fits slack 0 done gs room p s r bs
    → commit true (encoder gs p s (length pre + length done) x) (bytes_at pre post done room)
      ≡ some (pre ++ (set_stop (done ++ (gs ++ ((p * 2 ^ s) ∷ []))) ++ post))
committed pre post done gs room p s r x slack bs hs (e, l, b, hd, hg, lg, c, q) =
    let last = p * 2 ^ s in
    let word = set_stop (gs ++ (last ∷ [])) in
    let o = length pre + length done in
    commit-encoder true gs p s o x (bytes_at pre post done room) lg hg (last_below p r s e b)
    ∙ ap (λ u. write_bytes_at word o false (bytes_at pre post done u)) (sym (append-nil room))
    ∙ write_word pre post done room [] word (length_word gs last ∙ omega arith)
    ∙ ap (λ u. some (pre ++ (u ++ post))) (set_stop_last done gs last)

Groups-Fits :
    (done gs room : List ℕ) (p s r slack : ℕ) (bs : List Bool)
    → Fits slack 0 done gs room p s r bs
    → Groups bs (done ++ (gs ++ ((p * 2 ^ s) ∷ [])))
Groups-Fits done gs room p s r slack bs (e, l, b, hd, hg, lg, c, q) = (
  All-append done _ hd (All-append gs _ hg (last_below p r s e b, tt)),
  omega (arith, length-append done (gs ++ ((p * 2 ^ s) ∷ [])), length-append gs ((p * 2 ^ s) ∷ [])),
  (s, group_bits_last done gs p r s e ∙ ap (λ u. u ++ falses s) q),
)

Yields-Groups :
    (gs rest : List ℕ) (bs : List Bool)
    → Groups bs gs
    → (m : DecoderMap) × (m' : DecoderMap) × (k : ℕ) × (decode_pmap (set_stop gs ++ rest)
        ≡ ok m rest)
      × Yields map_source (some m) (bs ++ falses k) (some m')
Yields-Groups [] rest bs (h, l, (k, e)) = absurd (omega arith)
Yields-Groups (g ∷ gs) rest bs (h, l, (k, e)) =
    let (m, m', o, y) = Yields-decode_pmap g gs rest h in
    (m, m', k, o, subst (λ u. Yields map_source (some m) u (some m')) e y)

-- What is written does not hang on what comes to stand behind it.
pub map_written :
    (b : Bool) (bs : List Bool) (pre room post : List ℕ)
    → length room ≡ (length (b ∷ bs) + 6) / 7
    → (bytes : List ℕ) × (encode_pmap true (b ∷ bs) pre room post ≡ some (pre ++ (bytes ++ post)))
      × ((rest : List ℕ)
          → (m : DecoderMap) × (m' : DecoderMap) × (k : ℕ) × (decode_pmap (bytes ++ rest)
              ≡ ok m rest)
            × Yields map_source (some m) ((b ∷ bs) ++ falses k) (some m'))
map_written b bs pre room post e =
    let (done, gs, room', p, s, r, x, run, f) = Reaches-set_bits pre room post b bs e in
    let slack = 7 * length room - length (b ∷ bs) in
    let groups = done ++ (gs ++ ((p * 2 ^ s) ∷ [])) in
    (
      set_stop groups,
      ap (then_commit true) run
          ∙ committed pre post done gs room' p s r x slack (b ∷ bs) (omega arith) f,
      λ rest. Yields-Groups groups rest (b ∷ bs) (Groups-Fits done gs room' p s r slack (b ∷ bs) f),
    )

-- A presence map of at least one bit, written with `init`, one `set_next_bit` for each bit and `commit`
-- into the room that `init` keeps for it, on a stream that allows overlong maps: the bytes before the
-- map and those behind it stay as they are, and from the bytes of the map `decode` loads a map whose
-- `is_next_bit_set` gives the bits in order, then zeros, and leaves what follows. No write fails, however
-- many bits there are.
pub decode_pmap-encode_pmap :
    (b : Bool) (bs : List Bool) (pre room post rest : List ℕ)
    → length room ≡ (length (b ∷ bs) + 6) / 7
    → (bytes : List ℕ) × (m : DecoderMap) × (m' : DecoderMap) × (k : ℕ) × (encode_pmap true
          (b ∷ bs)
          pre
          room
          post
        ≡ some (pre ++ (bytes ++ post)))
      × (decode_pmap (bytes ++ rest) ≡ ok m rest)
      × Yields map_source (some m) ((b ∷ bs) ++ falses k) (some m')
decode_pmap-encode_pmap b bs pre room post rest e =
    let (bytes, written, load) = map_written b bs pre room post e in
    let (m, m', k, o, y) = load rest in (bytes, m, m', k, written, o, y)
