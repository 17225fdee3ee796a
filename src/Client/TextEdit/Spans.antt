-- ===== src/Client/TextEdit/Spans.antt =====
-- client/src/message/text/mytextedit.cpp: what the keys that delete do to an address in the text.
use cloud_meeting_client.Client.TextEdit.{
  MyTextEdit, backspace_key, edited, complete, last_at, inserted, change_completion, remove_between,
  filter_spans, event_filter, without_prefix,
}
use cloud_meeting_client.Prelude.{
  ◌&&◌, Bytes, ◌++◌, length, ℕ, inr, append-nil, false, ap, Option-cases, ◌+◌, refl, ◌≡◌, ◌∷◌,
  arith, ◌<◌, inl, leb, All, ◌∙◌, some, ltb, [], append_assoc, List, ◌≤◌, min, max, true,
  if◌then◌else◌, drop, ◌==◌, take, ◌-◌, ==_iff, length-append, zero, suc, drop_nil, take-append_le,
}

last_at-lt : (t : Bytes) (n : ℕ) → last_at t ≡ some n → n < length t
unfolding last_at
last_at-lt [] n e = absurd (ground (arith, e))
last_at-lt (c ∷ t) n e = elim (Option-cases (last_at t)) [
  | inl f ↦ ground (arith, e, f)
  | inr (m, f) ↦ ground (arith, e, f, last_at-lt t m f)
]

edited_frame :
    (text : Bytes) (cursor : ℕ) (e : MyTextEdit)
    → ((edited text cursor e).text ≡ text)
      × ((edited text cursor e).cursor ≡ cursor)
      × ((edited text cursor e).spans ≡ e.spans)
unfolding edited complete
edited_frame text cursor e = (ground arith, ground arith, ground arith)

-- What a completion leaves: the address and a blank, the cursor behind them, and their span.
change_completion_lem :
    (end_of_word : Bytes → ℕ → ℕ) (item : Bytes) (at : ℕ) (e : MyTextEdit)
    → last_at (inserted end_of_word item e) ≡ some at
    → (f : MyTextEdit) × (change_completion end_of_word item e ≡ some f)
      × (f.text ≡ inserted end_of_word item e ++ b' ' ∷ [])
      × (f.cursor ≡ length (inserted end_of_word item e) + 1)
      × (f.spans ≡ e.spans ++ (at, length (inserted end_of_word item e) + 1) ∷ [])
unfolding change_completion
change_completion_lem end_of_word item at e h =
    let str = inserted end_of_word item e in
    let cursor = end_of_word e.text e.cursor + length (without_prefix item e.prefix) in
    let f : MyTextEdit = record (edited str cursor e) { is_shown = false } in
    let g = edited (str ++ b' ' ∷ []) (length str + 1) f in
    let frame = edited_frame (str ++ b' ' ∷ []) (length str + 1) f in
    (
      record g { spans = g.spans ++ (at, length str + 1) ∷ [] },
      rw (change_completion, h) refl,
      frame.0,
      frame.1,
      ap (λ l. l ++ (at, length str + 1) ∷ []) (frame.2 ∙ (edited_frame str cursor e).2),
    )

earlier :
    (n c : ℕ) (spans : List (ℕ × ℕ)) → n < c → All (λ s. s.1 ≤ n) spans → All (λ s. s.1 < c) spans
earlier n c [] l h = tt
earlier n c ((a, b) ∷ spans) l h = (omega (arith, l, h.0), earlier n c spans l h.1)

drop_all : (xs : Bytes) (n : ℕ) → length xs ≤ n → drop n xs ≡ []
drop_all [] n h = drop_nil n
drop_all (x ∷ xs) zero h = absurd (omega (arith, h))
drop_all (x ∷ xs) (suc n) h = drop_all xs n (omega (arith, h))

module _ (set_position : ℕ → ℕ → ℕ → ℕ) where
  filter_skip :
      (p : ℕ) (done todo rest : List (ℕ × ℕ)) (e : MyTextEdit)
      → All (λ s. s.1 < p) todo
      → filter_spans set_position backspace_key p done (todo ++ rest) e
        ≡ filter_spans set_position backspace_key p (done ++ todo) rest e
  unfolding filter_spans
  filter_skip p done [] rest e h = rw (append-nil done) refl
  filter_skip p done ((a, b) ∷ todo) rest e h =
      let hit : (ltb a p && leb p b) ≡ false = ground (arith, h.0) in
      let near : (leb a p && leb p b) ≡ false = ground (arith, h.0) in
      rw (hit, near)
        (filter_skip p (done ++ (a, b) ∷ []) todo rest e h.1
          ∙ ap (λ l. filter_spans set_position backspace_key p l rest e)
              (append_assoc done ((a, b) ∷ []) todo))

  filter_hit :
      (p a b : ℕ) (done after : List (ℕ × ℕ)) (e : MyTextEdit)
      → a < p
      → p ≤ b
      → filter_spans set_position backspace_key p done ((a, b) ∷ after) e ≡ (
        record (remove_between
            (set_position (length e.text) a p)
            (set_position
              (length e.text)
              (if p == b then b else b + 1)
              (set_position (length e.text) a p))
            e) { spans = done ++ after },
        true,
      )
  unfolding filter_spans
  filter_hit p a b done after e h k =
      let hit : (ltb a p && leb p b) ≡ true = ground (arith, h, k) in rw hit refl

  -- A position within the text is set as it is.
  abbrev pub IsSetting : Type 0
  IsSetting = (n new old : ℕ) → new ≤ n → set_position n new old ≡ new

  remove_between_lem :
      (low high : ℕ) (e : MyTextEdit)
      → low ≤ high
      → ((remove_between low high e).text ≡ take low e.text ++ drop high e.text)
        × ((remove_between low high e).cursor ≡ (
            if leb e.cursor low
            then e.cursor
            else if leb e.cursor high
            then low
            else e.cursor - (high - low)))
  unfolding remove_between
  remove_between_lem low high e h =
      let least : min low high ≡ low = ground (arith, h) in
      let greatest : max low high ≡ high = ground (arith, h) in
      rw (least, greatest)
        (let frame =
            edited_frame (take low e.text ++ drop high e.text)
              (if leb e.cursor low
                then e.cursor
                else if leb e.cursor high
                then low
                else e.cursor - (high - low))
              e in
          (frame.0, frame.1))

  -- A backspace in a span or at its end removes the text from the span's first position on, the span,
  -- and where the cursor is not at its end also the unit behind it; the key is taken from the editor
  -- and the cursor stands where the span began. The conditions: the spans before end before the
  -- cursor, the text has what is removed, and Qt sets a position within the text as it is.
  pub event_filter_lem :
      (a b : ℕ) (before after : List (ℕ × ℕ)) (e : MyTextEdit)
      → IsSetting
      → e.spans ≡ before ++ (a, b) ∷ after
      → All (λ s. s.1 < e.cursor) before
      → a < e.cursor
      → e.cursor ≤ b
      → (if e.cursor == b then b else b + 1) ≤ length e.text
      → let out = event_filter set_position backspace_key e in
        (out.1 ≡ true)
        × (out.0.text ≡ take a e.text ++ drop (if e.cursor == b then b else b + 1) e.text)
        × (out.0.cursor ≡ a)
        × (out.0.spans ≡ before ++ after)
  unfolding event_filter
  event_filter_lem a b before after e law s h l k r =
      let q = if e.cursor == b then b else b + 1 in
      let inside : a ≤ length e.text = ground (arith, l, k, r) in
      let kept : (leb e.cursor a ≡ false) × (leb e.cursor q ≡ true) =
        (ground arith, ground arith) in
      let ordered : a ≤ q = ground arith in
      let removed = remove_between_lem a q e ordered in
      let out : event_filter set_position backspace_key e
          ≡ (record (remove_between a q e) { spans = before ++ after }, true) =
        ap (λ l. filter_spans set_position backspace_key e.cursor [] l e) s
        ∙ filter_skip e.cursor [] before ((a, b) ∷ after) e h
        ∙ filter_hit e.cursor a b before after e l k
        ∙ rw (law (length e.text) a e.cursor inside, law (length e.text) q a r) refl in
      (
        ap (λ o. o.1) out,
        ap (λ o. o.0.text) out ∙ removed.0,
        ap (λ o. o.0.cursor) out ∙ removed.1 ∙ rw (kept.0, kept.1) refl,
        ap (λ o. o.0.spans) out,
      )

  -- A backspace after a completion takes the address back as a whole: what is left is the text before
  -- its `@`, the cursor stands at its end, and the spans are those that there were. The conditions: the
  -- text with the item has an `@`, the spans that there are end within it, and Qt sets a position
  -- within the text as it is.
  pub event_filter-change_completion :
      (end_of_word : Bytes → ℕ → ℕ) (item : Bytes) (at : ℕ) (e : MyTextEdit)
      → IsSetting
      → last_at (inserted end_of_word item e) ≡ some at
      → All (λ s. s.1 ≤ length (inserted end_of_word item e)) e.spans
      → (f : MyTextEdit) × (change_completion end_of_word item e ≡ some f)
        × (let out = event_filter set_position backspace_key f in
            (out.1 ≡ true)
            × (out.0.text ≡ take at (inserted end_of_word item e))
            × (out.0.cursor ≡ at)
            × (out.0.spans ≡ e.spans))
  event_filter-change_completion end_of_word item at e law h ends =
      let str = inserted end_of_word item e in
      let c = change_completion_lem end_of_word item at e h in
      let f = c.0 in
      let short = last_at-lt str at h in
      let size : length f.text ≡ length str + 1 = ap length c.2 ∙ length-append str (b' ' ∷ []) in
      let at_end : (f.cursor == length str + 1) ≡ true = (==_iff f.cursor (length str + 1)).1 c.3 in
      let end : (if f.cursor == length str + 1 then length str + 1 else length str + 1 + 1)
          ≡ length str + 1 =
        rw at_end refl in
      let out =
        event_filter_lem at (length str + 1) e.spans [] f law c.4
          (earlier (length str) f.cursor e.spans (omega arith) ends) (omega arith) (omega arith)
          (rw end (omega arith)) in
      let kept : take at f.text ≡ take at str =
        rw c.2 (take-append_le str (b' ' ∷ []) at (omega arith)) in
      let gone : drop (length str + 1) f.text ≡ [] =
        drop_all f.text (length str + 1) (omega arith) in
      (
        f,
        c.1,
        (
          out.0,
          out.1 ∙ rw (end, kept, gone) (append-nil (take at str)),
          out.2,
          out.3 ∙ append-nil e.spans,
        ),
      )
