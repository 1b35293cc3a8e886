-- ===== src/Ai/Stream/Chunks.antt =====
-- web/src/api/ai.ts: the events do not depend on where the stream is cut into chunks.
use text.Mathlib.TextLemmas.{append_assoc as text_assoc, append-nil}
use tolquane.Base.{
  ℕ, zero, suc, ◌<◌, String, ◌<>◌, Option, none, List, [], ◌∷◌, ◌++◌, append_assoc, ◌≡◌, refl, sym,
  ap, subst, ◌∙◌, arith, Option-cases, inl, inr,
}
use tolquane.Model.Json.{Json}
use tolquane.Ai.Stream.{
  cut, count, Waiting, take_line, without_return, drain, Parser, fresh, push, push_all, flush,
  stream_events,
}
use tolquane.Ai.Stream.Lines.{Split, lines, cut-none, cut-some, lines-rest, lines-append}

module _ (parse : String → Option Json) where
  -- The lines one after the other.
  unfoldable pub feed : List String → List String → Waiting
  feed [] held = ([], held)
  feed (l ∷ ls) held =
      let w = take_line parse (without_return l) held in
      let rest = feed ls w.1 in (w.0 ++ rest.0, rest.1)

  abbrev with_rest : String → Waiting → List Json × Parser
  with_rest rest f = (f.0, record { buffer = rest; data_lines = f.1 })

  abbrev pub after : Split → List String → List Json × Parser
  after w held = let fed = feed w.0 held in (fed.0, record { buffer = w.1; data_lines = fed.1 })

  -- With more fuel than the buffer is long, the loop takes all lines.
  drain_lem :
      (n : ℕ) (buffer : String) (held : List String)
      → count buffer < n
      → drain parse n buffer held ≡ after (lines buffer) held
  unfolding drain feed
  drain_lem zero buffer held h = absurd (omega arith)
  drain_lem (suc n) buffer held h = elim (Option-cases (cut buffer)) [
    | inl e ↦ rw (e, drain) (ap (λ w. after w held) (sym (cut-none buffer e)))
    | inr ((l, r), e) ↦
        let (q, k) = cut-some buffer l r e in
        let w = take_line parse (without_return l) held in
        rw (e, drain)
          (ap (λ (rest : List Json × Parser). (w.0 ++ rest.0, rest.1))
              (drain_lem n r w.1 (omega arith))
            ∙ ap (λ v. after v held) (sym q))
  ]

  push_lem :
      (chunk : String) (p : Parser)
      → push parse chunk p ≡ after (lines (p.buffer <> chunk)) p.data_lines
  unfolding push
  push_lem chunk p =
      drain_lem (suc (count (p.buffer <> chunk))) (p.buffer <> chunk) p.data_lines (omega arith)

  feed-append :
      (xs ys held : List String)
      → feed (xs ++ ys) held
        ≡ ((feed xs held).0 ++ (feed ys ((feed xs held).1)).0, (feed ys ((feed xs held).1)).1)
  unfolding feed
  feed-append [] ys held = refl
  feed-append (x ∷ xs) ys held =
      let w = take_line parse (without_return x) held in
      ap (λ (rest : Waiting). (w.0 ++ rest.0, rest.1)) (feed-append xs ys w.1)
      ∙ ap (λ es. (es, (feed ys ((feed xs w.1).1)).1)) (sym (append_assoc w.0 ((feed xs w.1).0) _))

  -- Two chunks.
  push-push :
      (a b : String) (p : Parser)
      → push parse (a <> b) p ≡ (
        (push parse a p).0 ++ (push parse b ((push parse a p).1)).0,
        (push parse b ((push parse a p).1)).1,
      )
  push-push a b p =
      let d = p.data_lines in
      let one = lines (p.buffer <> a) in
      let two = lines (one.1 <> b) in
      push_lem (a <> b) p
      ∙ ap (λ x. after (lines x) d) (sym (text_assoc p.buffer a b))
      ∙ ap (λ w. after w d) (lines-append (p.buffer <> a) b)
      ∙ ap (λ (f : Waiting). with_rest two.1 f) (feed-append one.0 two.0 d)
      ∙ sym (
          ap (λ (r : List Json × Parser). (r.0 ++ (push parse b r.1).0, (push parse b r.1).1))
            (push_lem a p)
          ∙ ap (λ (q : List Json × Parser). ((after one d).0 ++ q.0, q.1))
              (push_lem b ((after one d).1)))

  -- After a call of `push` no line feed is left in the buffer: the loop has taken every line that is
  -- whole, and its fuel is enough.
  pub push-drained : (chunk : String) (p : Parser) → cut ((push parse chunk p).1.buffer) ≡ none
  push-drained chunk p =
      subst (λ (r : List Json × Parser). cut (r.1.buffer) ≡ none) (sym (push_lem chunk p))
        (lines-rest (p.buffer <> chunk))

-- The text of the stream.
unfoldable pub joined : List String → String
joined [] = ""
joined (c ∷ cs) = c <> joined cs

module _ (parse : String → Option Json) where
  push-empty : (p : Parser) → cut p.buffer ≡ none → push parse "" p ≡ ([], p)
  unfolding feed
  push-empty p h =
      push_lem parse "" p
      ∙ ap (λ s. after parse (lines s) p.data_lines) (append-nil p.buffer)
      ∙ ap (λ w. after parse w p.data_lines) (cut-none p.buffer h)

  push_all-joined :
      (chunks : List String) (p : Parser)
      → cut p.buffer ≡ none
      → push_all parse chunks p ≡ push parse (joined chunks) p
  unfolding push_all joined
  push_all-joined [] p h = sym (push-empty p h)
  push_all-joined (c ∷ cs) p h =
      ap (λ (r : List Json × Parser). ((push parse c p).0 ++ r.0, r.1))
        (push_all-joined cs ((push parse c p).1) (push-drained parse c p))
      ∙ sym (push-push parse c (joined cs) p)

fresh-cut : cut fresh.buffer ≡ none
unfolding cut
fresh-cut = refl

-- Two ways to cut the same stream into chunks give the same events.
pub stream_events-joined :
    (parse : String → Option Json) (xs ys : List String)
    → joined xs ≡ joined ys
    → stream_events parse xs ≡ stream_events parse ys
unfolding stream_events
stream_events-joined parse xs ys h =
    ap (λ (r : List Json × Parser). r.0 ++ (flush parse r.1).0)
      (push_all-joined parse xs fresh fresh-cut
        ∙ ap (λ s. push parse s fresh) h
        ∙ sym (push_all-joined parse ys fresh fresh-cut))
