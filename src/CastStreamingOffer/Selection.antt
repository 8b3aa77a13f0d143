-- ===== src/CastStreamingOffer/Selection.antt =====
-- Which streams `selectStreams` of src/cast/CastStreamingOffer.cpp takes.
use mathlib.Core.Path.{subst}
use air_show.Prelude.{
  none_not_some, some_injective, sym, ap, ◌∙◌, ◌++◌, not, ◌&&◌, if◌then◌else◌, same_bytes,
  same_bytes_iff, ◌&&◌, not, ℕ, ◌≤◌, ◌<◌, ◌≡◌, refl, Bool, true, false, List, [], ◌∷◌, none, some,
  All, arith, Bool-cases, Option-cases, inl, inr,
}
use air_show.Settings.{Text}
use air_show.CastStreamingOffer.{
  codecs, gst_caps, usable, is_audio, Qt, CastStream, CastOffer, first_stream, first_video,
  select_streams, usable_video, vp8_codec, vp9_codec, h264_codec,
}

-- The place of a codec in the order of preference: the smaller the better.
abbrev pub rank : Text → ℕ
rank codec =
    if same_bytes codec vp8_codec
    then 0
    else if same_bytes codec vp9_codec
    then 1
    else if same_bytes codec h264_codec
    then 2
    else 3

-- The stream is one of the list and has the property.
abbrev pub IsOneOf : (CastStream → Bool) → List CastStream → CastStream → Type 0
IsOneOf p ss s =
    (p s ≡ true)
    × ((before : List CastStream) × ((after : List CastStream) × (ss ≡ before ++ (s ∷ after))))

first-here :
    (p : CastStream → Bool) (t : CastStream) (ss : List CastStream)
    → p t ≡ true
    → first_stream p (t ∷ ss) ≡ some t
unfolding first_stream
first-here p t ss x = rw x refl

first-later :
    (p : CastStream → Bool) (t : CastStream) (ss : List CastStream)
    → p t ≡ false
    → first_stream p (t ∷ ss) ≡ first_stream p ss
unfolding first_stream
first-later p t ss x = rw x refl

first_stream-some :
    (p : CastStream → Bool) (ss : List CastStream) (s : CastStream)
    → first_stream p ss ≡ some s
    → IsOneOf p ss s
unfolding first_stream
first_stream-some p [] s e = absurd (none_not_some e)
first_stream-some p (t ∷ ss) s e = elim (Bool-cases (p t)) [
  | inl x ↦
      let same : t ≡ s = some_injective (sym (first-here p t ss x) ∙ e) in
      (subst (λ u. p u ≡ true) same x, ([], (ss, ap (λ u. u ∷ ss) same)))
  | inr x ↦
      let rest = first_stream-some p ss s (sym (first-later p t ss x) ∙ e) in
      (rest.0, (t ∷ rest.1.0, (rest.1.1.0, ap (◌∷◌ t) rest.1.1.1)))
]

first_stream-none :
    (p : CastStream → Bool) (ss : List CastStream)
    → first_stream p ss ≡ none
    → All (λ t. p t ≡ false) ss
unfolding first_stream
first_stream-none p [] e = tt
first_stream-none p (t ∷ ss) e = elim (Bool-cases (p t)) [
  | inl x ↦ absurd (none_not_some (sym e ∙ first-here p t ss x))
  | inr x ↦ (x, first_stream-none p ss (sym (first-later p t ss x) ∙ e))
]

All-map : {A : Type 0} (P Q : A → Type 0) → ((a : A) → P a → Q a) → (l : List A) → All P l → All Q l
All-map P Q f [] h = tt
All-map P Q f (a ∷ l) h = (f a h.0, All-map P Q f l h.1)

All-both :
    {A : Type 0} (P Q : A → Type 0) → (l : List A) → All P l → All Q l → All (λ a. P a × Q a) l
All-both P Q [] h k = tt
All-both P Q (a ∷ l) h k = ((h.0, k.0), All-both P Q l h.1 k.1)

All-intro : {A : Type 0} (P : A → Type 0) → ((a : A) → P a) → (l : List A) → All P l
All-intro P f [] = tt
All-intro P f (a ∷ l) = (f a, All-intro P f l)

module _ {Json : Type 0} (qt : Qt Json) (can_decode : Text → Bool) where
  -- A video stream that could be played.
  abbrev pub playable : CastStream → Bool
  playable s = not (is_audio s.kind) && usable qt can_decode s

  -- A stream that no codec of the preference takes cannot be played.
  playable-codec :
      (t : CastStream)
      → playable t ≡ true
      → usable_video qt can_decode vp8_codec t ≡ false
      → usable_video qt can_decode vp9_codec t ≡ false
      → usable_video qt can_decode h264_codec t ≡ false
      → ⊥
  unfolding usable_video usable gst_caps
  playable-codec t e x8 x9 x4 = ground (arith, e, x8, x9, x4)

  rank-lower :
      (t : CastStream) (n : ℕ)
      → playable t ≡ true
      → (0 < n → usable_video qt can_decode vp8_codec t ≡ false)
      → (1 < n → usable_video qt can_decode vp9_codec t ≡ false)
      → n ≤ 2
      → n ≤ rank t.codec
  unfolding usable_video
  rank-lower t n e x8 x9 le = ground (arith, e, x8, x9, le)

  usable_video-playable :
      (codec : Text) (t : CastStream)
      → usable_video qt can_decode codec t ≡ true
      → (playable t ≡ true) × (t.codec ≡ codec)
  unfolding usable_video
  usable_video-playable codec t e =
      (ground (arith, e), (same_bytes_iff t.codec codec).0 (ground (arith, e)))

  first_video-some :
      (codec : Text) (cs : List Text) (ss : List CastStream) (t : CastStream)
      → first_stream (usable_video qt can_decode codec) ss ≡ some t
      → first_video qt can_decode (codec ∷ cs) ss ≡ some t
  unfolding first_video
  first_video-some codec cs ss t e = rw (e, first_video) refl

  first_video-none :
      (codec : Text) (cs : List Text) (ss : List CastStream)
      → first_stream (usable_video qt can_decode codec) ss ≡ none
      → first_video qt can_decode (codec ∷ cs) ss ≡ first_video qt can_decode cs ss
  unfolding first_video
  first_video-none codec cs ss e = rw (e, first_video) refl

  first_video-nil : (ss : List CastStream) → first_video qt can_decode [] ss ≡ none
  unfolding first_video
  first_video-nil ss = refl

  abbrev Missed : Text → CastStream → Type 0
  Missed codec t = usable_video qt can_decode codec t ≡ false

  -- The streams that no codec in front of the place `n` takes.
  abbrev SkippedTo : ℕ → CastStream → Type 0
  SkippedTo n t =
      (0 < n → usable_video qt can_decode vp8_codec t ≡ false)
      × (1 < n → usable_video qt can_decode vp9_codec t ≡ false)

  IsBest : List CastStream → CastStream → Type 0
  IsBest ss s =
      IsOneOf playable ss s × All (λ t. playable t ≡ true → rank s.codec ≤ rank t.codec) ss

  best :
      (n : ℕ) (codec : Text) (ss : List CastStream) (t s : CastStream)
      → n ≤ 2
      → rank codec ≡ n
      → All (SkippedTo n) ss
      → first_stream (usable_video qt can_decode codec) ss ≡ some t
      → t ≡ s
      → IsBest ss s
  unfolding IsBest
  best n codec ss t s le r skipped found same =
      let one = first_stream-some (usable_video qt can_decode codec) ss s (found ∙ ap some same) in
      let is = usable_video-playable codec s one.0 in
      let low : rank s.codec ≡ n = ap rank is.1 ∙ r in
      (
        (is.0, one.1),
        All-map (SkippedTo n) (λ t. playable t ≡ true → rank s.codec ≤ rank t.codec)
            (λ u k p. omega (arith, low, rank-lower u n p k.0 k.1 le)) ss skipped,
      )

  unplayable :
      (t : CastStream)
      → usable_video qt can_decode vp8_codec t ≡ false
      → usable_video qt can_decode vp9_codec t ≡ false
      → usable_video qt can_decode h264_codec t ≡ false
      → playable t ≡ false
  unplayable t x8 x9 x4 = elim (Bool-cases (playable t)) [
    | inl e ↦ absurd (playable-codec t e x8 x9 x4)
    | inr e ↦ e
  ]

  first_video-cases :
      (ss : List CastStream)
      → ((s : CastStream) → first_video qt can_decode codecs ss ≡ some s → IsBest ss s)
        × (first_video qt can_decode codecs ss ≡ none → All (λ t. playable t ≡ false) ss)
  first_video-cases ss =
      let skip8 = first_video-none vp8_codec (vp9_codec ∷ h264_codec ∷ []) ss in
      let skip9 = first_video-none vp9_codec (h264_codec ∷ []) ss in
      let none8 = first_stream-none (usable_video qt can_decode vp8_codec) ss in
      let none9 = first_stream-none (usable_video qt can_decode vp9_codec) ss in
      elim (Option-cases (first_stream (usable_video qt can_decode vp8_codec) ss)) [
        | inr (t, f8) ↦
            let is = first_video-some vp8_codec (vp9_codec ∷ h264_codec ∷ []) ss t f8 in
            (
              (λ s e.
                  best 0 vp8_codec ss t s (omega arith) refl
                    (All-intro (SkippedTo 0) (λ t. ((λ x. elim x [ ]), (λ x. elim x [ ]))) ss) f8
                    (some_injective (sym is ∙ e))),
              (λ e. absurd (none_not_some (sym e ∙ is))),
            )
        | inl f8 ↦ elim (Option-cases (first_stream (usable_video qt can_decode vp9_codec) ss)) [
          | inr (t, f9) ↦
              let is = skip8 f8 ∙ first_video-some vp9_codec (h264_codec ∷ []) ss t f9 in
              (
                (λ s e.
                    best 1 vp9_codec ss t s (omega arith) refl
                      (All-map (Missed vp8_codec) (SkippedTo 1)
                        (λ u x. ((λ y. x), (λ y. absurd (omega (arith, y))))) ss (none8 f8))
                      f9 (some_injective (sym is ∙ e))),
                (λ e. absurd (none_not_some (sym e ∙ is))),
              )
          | inl f9 ↦ elim (Option-cases (first_stream (usable_video qt can_decode h264_codec) ss)) [
            | inr (t, f4) ↦
                let is = skip8 f8 ∙ skip9 f9 ∙ first_video-some h264_codec [] ss t f4 in
                (
                  (λ s e.
                      best 2 h264_codec ss t s (omega arith) refl
                        (All-map (λ t. Missed vp8_codec t × Missed vp9_codec t) (SkippedTo 2)
                          (λ u x. ((λ y. x.0), (λ y. x.1))) ss
                          (All-both (Missed vp8_codec) (Missed vp9_codec) ss (none8 f8) (none9 f9)))
                        f4 (some_injective (sym is ∙ e))),
                  (λ e. absurd (none_not_some (sym e ∙ is))),
                )
            | inl f4 ↦
                let is =
                  skip8 f8 ∙ skip9 f9 ∙ first_video-none h264_codec [] ss f4 ∙ first_video-nil ss in
                (
                  (λ s e. absurd (none_not_some (sym is ∙ e))),
                  (λ e.
                      All-map (λ t. Missed vp8_codec t × (Missed vp9_codec t × Missed h264_codec t))
                        (λ t. playable t ≡ false) (λ u x. unplayable u x.0 x.1.0 x.1.1) ss
                        (All-both (Missed vp8_codec) (λ t. Missed vp9_codec t × Missed h264_codec t)
                          ss (none8 f8)
                          (All-both (Missed vp9_codec) (Missed h264_codec) ss (none9 f9)
                            (first_stream-none (usable_video qt can_decode h264_codec) ss f4)))),
                )
          ]
        ]
      ]

  -- The video stream that is taken is one of the offer that can be played, and no other one of the offer
  -- that can be played has a better codec.
  pub select_streams-video :
      (offer : CastOffer) (s : CastStream)
      → (select_streams qt can_decode offer).video ≡ some s
      → IsOneOf playable offer.streams s
        × All (λ t. playable t ≡ true → rank s.codec ≤ rank t.codec) offer.streams
  unfolding select_streams IsBest
  select_streams-video offer s e = (first_video-cases offer.streams).0 s e

  -- No video stream is taken only where none of the offer can be played.
  pub select_streams-no_video :
      (offer : CastOffer)
      → (select_streams qt can_decode offer).video ≡ none
      → All (λ t. playable t ≡ false) offer.streams
  unfolding select_streams
  select_streams-no_video offer e = (first_video-cases offer.streams).1 e
