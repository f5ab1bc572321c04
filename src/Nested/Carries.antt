-- ===== src/Nested/Carries.antt =====
-- A step of the encoder and the reading that receives what it sends, whatever is around.
use m_fast.Common.{
  ℕ, ◌≡◌, refl, sym, ap, ◌∙◌, Bool, some, List, [], ◌∷◌, ◌++◌, append-nil, append_assoc,
}
use mathlib.Core.Option.{some-injective}
use m_fast.Field.Storage.{Yields}
use m_fast.PresenceMap.Decoder.{DecoderMap, map_source}
use m_fast.PresenceMap.Encoder.{EncoderMap}
use m_fast.PresenceMap.EncoderRun.{set_bits}
use m_fast.Message.Template.{Dictionary}
use m_fast.Message.Encoder.{EncoderState, encoded, and_then, put_bits, with_map}
use m_fast.Message.Fields.{Yields-append}
use m_fast.Message.Interleaving.{set_bits_behind, set_bits_parts}
use m_fast.Nested.Encoder.{Run}
use m_fast.Nested.Decoder.{Read, got, Reader, then_read, bind, give, read_as, read_bit}
use m_fast.Nested.Plan.{Plan, planned, unplanned, prefixed, then_plan, SameShared}
use m_fast.Common.{Option}

abbrev pub in_state : Dictionary → EncoderMap → List ℕ → EncoderState
in_state dict m w = record { dictionary = dict; map = m; stream = w }

module _ (shared : ℕ → Bool) where
  -- Reading ends with the map `m'` and the rest, in step with the dictionary `de'`, and with a value
  -- of which `R` holds.
  abbrev pub Receives :
      {B : Type 0} → Dictionary → (B → Type 0) → Read B → Option DecoderMap → List ℕ → Type 0
  Receives {B} de' R r m' rest =
      (dd' : Dictionary) × (b : B) × (r ≡ got dd' b m' rest) × SameShared shared de' dd' × R b

  -- `run` in the dictionary `de` sends what the plan says: where its bits fit into the map it ends with
  -- them set and some bytes behind the stream, and these bytes are received after any reading that
  -- gave a value of which `G` holds.
  abbrev pub CarriesFor :
      {A B : Type 0}
      → (A → Type 0)
      → Dictionary
      → Run
      → (A → Reader B)
      → (B → Type 0)
      → Plan
      → Type 0
  CarriesFor {A} G de run read R (unplanned e) = Unit
  CarriesFor {A} G de run read R (planned de' bits) =
      (map m : EncoderMap) (stream w : List ℕ)
      → set_bits bits (map, stream) ≡ some (m, w)
      → (bytes : List ℕ) × (run (in_state de map stream) ≡ encoded (in_state de' m (w ++ bytes)))
        × ((a : A)
            → G a
            → (dd : Dictionary) → SameShared shared de dd
            → (dm dm' : Option DecoderMap) (rest : List ℕ) → Yields map_source dm bits dm'
            → Receives de' R (read a dd dm (bytes ++ rest)) dm' rest)

  abbrev pub Anything : Unit {0} → Type 0
  Anything _ = Unit

  abbrev pub Carries : {B : Type 0} → Dictionary → Run → Reader B → (B → Type 0) → Plan → Type 0
  Carries de run read R p = CarriesFor Anything de run (λ _. read) R p

  pub bind_planned :
      {B C : Type 0} (de de1 : Dictionary) (run1 run2 : Run) (read1 : Reader B)
      (read2 : B → Reader C) (R1 : B → Type 0) (R2 : C → Type 0) (bits1 : List Bool) (q : Plan)
      → Carries de run1 read1 R1 (planned de1 bits1)
      → CarriesFor R1 de1 run2 read2 R2 q
      → Carries de (λ st. and_then (run1 st) run2) (bind read1 read2) R2 (prefixed bits1 q)
  bind_planned de de1 run1 run2 read1 read2 R1 R2 bits1 (unplanned e) first second = tt
  bind_planned de de1 run1 run2 read1 read2 R1 R2 bits1 (planned de2 bits2) first second =
      λ map m stream w e.
        let ((n, v), s1, s2) = set_bits_parts bits1 bits2 (map, stream) (m, w) e in
        let (bytes1, ran1, recv1) = first map n stream v s1 in
        let (bytes2, ran2, recv2) =
          second n m (v ++ bytes1) (w ++ bytes1) (set_bits_behind bits2 n m v w bytes1 s2) in
        (
          bytes1 ++ bytes2,
          ap (λ r. and_then r run2) ran1
              ∙ ran2
              ∙ ap (λ l. encoded (in_state de2 m l)) (append_assoc w bytes1 bytes2),
          λ a g dd same dm dm' rest y.
              let (k, y1, y2) = Yields-append map_source dm dm' bits1 bits2 y in
              let (dd1, b, e1, same1, rb) = recv1 tt tt dd same dm k (bytes2 ++ rest) y1 in
              let (dd2, c, e2, same2, rc) = recv2 b rb dd1 same1 k dm' rest y2 in
              (
                dd2,
                c,
                ap (λ s. then_read (read1 dd dm s) read2) (append_assoc bytes1 bytes2 rest)
                    ∙ ap (λ r. then_read r read2) e1
                    ∙ e2,
                same2,
                rc,
              ),
        )

  -- One step behind another.
  pub bind-Carries :
      {B C : Type 0} (de : Dictionary) (run1 run2 : Run) (read1 : Reader B) (read2 : B → Reader C)
      (R1 : B → Type 0) (R2 : C → Type 0) (p : Plan) (go : Dictionary → Plan)
      → Carries de run1 read1 R1 p
      → ((de1 : Dictionary) (bits : List Bool)
          → p ≡ planned de1 bits
          → CarriesFor R1 de1 run2 read2 R2 (go de1))
      → Carries de (λ st. and_then (run1 st) run2) (bind read1 read2) R2 (then_plan p go)
  bind-Carries de run1 run2 read1 read2 R1 R2 (unplanned e) go first second = tt
  bind-Carries de run1 run2 read1 read2 R1 R2 (planned de1 bits) go first second =
      bind_planned de de1 run1 run2 read1 read2 R1 R2 bits (go de1) first (second de1 bits refl)

  -- What was read, put into a value around it.
  pub read_as-Carries :
      {A B C : Type 0} (G : A → Type 0) (de : Dictionary) (run : Run) (read : A → Reader B)
      (R : B → Type 0) (S : C → Type 0) (f : A → B → C) (p : Plan)
      → CarriesFor G de run read R p
      → ((a : A) (b : B) → G a → R b → S (f a b))
      → CarriesFor G de run (λ a. read_as (f a) (read a)) S p
  read_as-Carries G de run read R S f (unplanned e) h s = tt
  read_as-Carries G de run read R S f (planned de' bits) h s = λ map m stream w e.
      let (bytes, ran, recv) = h map m stream w e in
      (
        bytes,
        ran,
        λ a g dd same dm dm' rest y.
            let (dd', b, e1, same', rb) = recv a g dd same dm dm' rest y in
            (dd', f a b, ap (λ r. then_read r λ b'. give (f a b')) e1, same', s a b g rb),
      )

  -- Where nothing is sent.
  pub give-Carries :
      {A B : Type 0} (G : A → Type 0) (de : Dictionary) (f : A → B) (R : B → Type 0)
      → ((a : A) → G a → R (f a))
      → CarriesFor G de encoded (λ a. give (f a)) R (planned de [])
  give-Carries G de f R h map m stream w e =
      let same = some-injective _ _ e in
      (
        [],
        (λ i. encoded (in_state de (same i).0 ((ap (λ p. p.1) same ∙ sym (append-nil w)) i))),
        λ a g dd s dm dm' rest y. (dd, f a, ap (λ n. got dd (f a) n rest) y, s, h a g),
      )

  -- A reading that is the same after every value before.
  pub reindex-Carries :
      {A B : Type 0} (G : A → Type 0) (de : Dictionary) (run : Run) (read : A → Reader B)
      (read0 : Reader B) (R : B → Type 0) (p : Plan)
      → ((a : A) → G a → read a ≡ read0)
      → Carries de run read0 R p
      → CarriesFor G de run read R p
  reindex-Carries G de run read read0 R (unplanned e) same h = tt
  reindex-Carries G de run read read0 R (planned de' bits) same h = λ map m stream w e.
      let (bytes, ran, recv) = h map m stream w e in
      (
        bytes,
        ran,
        λ a g dd s dm dm' rest y.
            let (dd', b, e1, s', rb) = recv tt tt dd s dm dm' rest y in
            (dd', b, ap (λ r. r dd dm (bytes ++ rest)) (same a g) ∙ e1, s', rb),
      )

  -- A bit of the current map.
  pub bit-Carries :
      (de : Dictionary) (b : Bool)
      → Carries de (put_bits (b ∷ [])) read_bit (λ c. c ≡ b) (planned de (b ∷ []))
  bit-Carries de b map m stream w e = (
    [],
    ap (with_map (in_state de map stream)) e
        ∙ ap (λ l. encoded (in_state de m l)) (sym (append-nil w)),
    λ a g dd same dm dm' rest y. (dd, b, λ i. got dd (y.0 i) (y.1 i) rest, same, refl),
  )
