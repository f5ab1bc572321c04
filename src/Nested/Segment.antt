-- ===== src/Nested/Segment.antt =====
-- Groups and elements with a presence map of their own, which stands in the stream before their fields.
use m_fast.Common.{
  ℕ, ◌+◌, ◌/◌, ◌≡◌, sym, ap, ◌∙◌, subst, Bool, true, some, List, [], ◌∷◌, ◌++◌, append_assoc,
  length,
}
use mathlib.Core.Option.{some-injective}
use m_fast.Wire.Outcome.{ok, err}
use m_fast.PresenceMap.Decoder.{decode_pmap, map_source}
use m_fast.PresenceMap.Encoder.{init, commit}
use m_fast.PresenceMap.EncoderBits.{falses}
use m_fast.PresenceMap.EncoderRun.{set_bits}
use m_fast.PresenceMap.RoundTrip.{then_commit, map_written}
use m_fast.Message.Template.{Dictionary}
use m_fast.Message.Encoder.{encoded, and_then}
use m_fast.Message.EncodeRun.{bits_fit}
use m_fast.Message.Fields.{Yields-append}
use m_fast.Message.Interleaving.{set_bits_behind}
use m_fast.Nested.Encoder.{Run, in_segment, close_segment}
use m_fast.Nested.Decoder.{Reader, threw, restore, got, read_segment}
use m_fast.Nested.Plan.{Plan, planned, unplanned, in_own_map}
use m_fast.Nested.Carries.{Carries, in_state}

-- The plan sets `n` bits.
abbrev pub PlanSets : ℕ → Plan → Type 0
PlanSets n (planned dict bits) = length bits ≡ n
PlanSets n (unplanned e) = Unit

module _ (shared : ℕ → Bool) (skipped : List ℕ → ℕ → List ℕ)
    (skips : (w : List ℕ) (k : ℕ) → length (skipped w k) ≡ k) {B : Type 0} (de : Dictionary)
    (run : Run) (read : Reader B) (R : B → Type 0) where
  own_map-Carries :
      (de' : Dictionary) (b : Bool) (bs : List Bool)
      → Carries shared de run read R (planned de' (b ∷ bs))
      → Carries shared de
          (in_segment skipped true (length (b ∷ bs)) run)
          (read_segment (length (b ∷ bs)) read)
          R
          (planned de' [])
  unfolding in_segment read_segment
  own_map-Carries de' b bs h map m stream w e =
      let n = length (b ∷ bs) in
      let room = skipped stream ((n + 6) / 7) in
      let fits = skips stream ((n + 6) / 7) in
      let ((mi, wi), s) = bits_fit b bs stream room fits in
      let (bytes, ran, recv) = h (init n stream) mi (stream ++ room) wi s in
      let (mb, put, load) = map_written b bs stream room bytes fits in
      let set =
        ap (λ l. set_bits (b ∷ bs) (init n stream, l)) (sym (append_assoc stream room bytes))
        ∙ set_bits_behind (b ∷ bs) _ mi (stream ++ room) wi bytes s in
      let committed = sym (ap (then_commit true) set) ∙ put in
      (
        mb ++ bytes,
        ap (λ r. and_then r λ st'. close_segment map st' (commit true st'.map st'.stream)) ran
            ∙ ap (close_segment map (in_state de' mi (wi ++ bytes))) committed
            ∙ ap (λ p. encoded (in_state de' p.0 (p.1 ++ (mb ++ bytes)))) (some-injective _ _ e),
        λ a g dd same dm dm' rest y.
            let (m0, m1, k, loaded, ys) = load (bytes ++ rest) in
            let (m2, first, zeros) =
              Yields-append map_source (some m0) (some m1) (b ∷ bs) (falses k) ys in
            let (dd', v, eq, same', rv) = recv tt tt dd same (some m0) m2 rest first in
            (
              dd',
              v,
              ap
                    (λ r. elim r [
                      | ok inner s ↦ restore dm (read dd (some inner) s)
                      | err x ↦ threw x
                    ])
                    (ap decode_pmap (append_assoc mb bytes rest) ∙ loaded)
                  ∙ ap (restore dm) eq
                  ∙ ap (λ d. got dd' v d rest) y,
              same',
              rv,
            ),
      )

  -- What a segment carries, it carries in a map of its own, or without one where it sets no bits.
  pub segment-Carries :
      (n : ℕ) (p : Plan)
      → PlanSets n p
      → Carries shared de run read R p
      → Carries shared de (in_segment skipped true n run) (read_segment n read) R (in_own_map p)
  unfolding in_segment read_segment
  segment-Carries n (unplanned e) sets h = tt
  segment-Carries n (planned de' (b ∷ bs)) sets h =
      subst
        (λ k.
          Carries shared de (in_segment skipped true k run) (read_segment k read) R
            (planned de' []))
        sets (own_map-Carries de' b bs h)
  segment-Carries n (planned de' []) sets h =
      subst
        (λ k.
          Carries shared de (in_segment skipped true k run) (read_segment k read) R
            (planned de' []))
        sets h
