-- ===== src/Client/TextEdit.antt =====
-- client/src/message/text/mytextedit.cpp: the input field of the chat, which completes the addresses of
-- members after an `@` and deletes such an address as a whole. Texts are lists of units of 16 bits. What
-- Qt does with a position beyond the end of the text and where a word ends are arguments.
pub mod Spans
use cloud_meeting_client.Prelude.{
  Bytes, leb, ℕ, take, true, drop, ◌++◌, ◌==◌, if◌then◌else◌, some, Option, List, max, none, ◌||◌,
  false, min, ◌-◌, Bool, ◌+◌, ltb, [], ◌∷◌, ◌&&◌, length,
}
use cloud_meeting_client.Server.Connection.{is_empty}

-- The completer's items, where there is one, its prefix, and whether its list is shown. A span is the
-- first position of an address and that behind it.
pub record MyTextEdit : Type 0 where
  pub text : Bytes
  pub cursor : ℕ
  pub spans : List (ℕ × ℕ)
  pub completer : Option (List Bytes)
  pub prefix : Bytes
  pub is_shown : Bool

pub data Key : Type 0 where
  backspace_key delete_key other_key : Key

abbrev pub is_backspace : Key → Bool
is_backspace backspace_key = true
is_backspace _ = false

abbrev pub is_delete : Key → Bool
is_delete delete_key = true
is_delete _ = false

-- Whether the last unit is an `@`.
unfoldable pub ends_with_at : Bytes → Bool
ends_with_at [] = false
ends_with_at (c ∷ []) = c == b'@'
ends_with_at (c ∷ (d ∷ t)) = ends_with_at (d ∷ t)

-- The slot for `textChanged`.
unfoldable pub complete : MyTextEdit → MyTextEdit
complete e = elim e.completer [
  | none ↦ e
  | some items ↦ if ends_with_at e.text then record e { prefix = b'@' ∷ []; is_shown = true } else e
]

-- A change of the text, with the cursor behind it.
unfoldable pub edited : Bytes → ℕ → MyTextEdit → MyTextEdit
edited text cursor e = complete (record e { text = text; cursor = cursor })

unfoldable pub set_plain_text : Bytes → MyTextEdit → MyTextEdit
set_plain_text str e = edited str 0 e

unfoldable pub set_completer : List Bytes → MyTextEdit → MyTextEdit
set_completer items e = record e { completer = some items }

-- `right` of the length that the prefix leaves; the whole text where that is negative.
unfoldable pub without_prefix : Bytes → Bytes → Bytes
without_prefix text prefix =
    if ltb (length text) (length prefix)
    then text
    else drop (length text - (length text - length prefix)) text

-- The loop that looks for the last `@`; `none` where it leaves the text.
unfoldable pub last_at : Bytes → Option ℕ
last_at [] = none
last_at (c ∷ t) = elim (last_at t) [
  | some n ↦ some (n + 1)
  | none ↦ if c == b'@' then some 0 else none
]

abbrev insert_at : ℕ → Bytes → Bytes → Bytes
insert_at position t text = take position text ++ (t ++ drop position text)

-- `end_of_word` is the position at the end of the word at a position of a text.
module _ (end_of_word : Bytes → ℕ → ℕ) where
  -- The text with the chosen item, before the blank.
  unfoldable pub inserted : Bytes → MyTextEdit → Bytes
  inserted item e = insert_at (end_of_word e.text e.cursor) (without_prefix item e.prefix) e.text

  unfoldable pub change_completion : Bytes → MyTextEdit → Option MyTextEdit
  change_completion item e =
      let str = inserted item e in
      let cursor = end_of_word e.text e.cursor + length (without_prefix item e.prefix) in
      let f = record (edited str cursor e) { is_shown = false } in
      elim (last_at str) [
        | none ↦ none
        | some at ↦
            let g = edited (str ++ b' ' ∷ []) (length str + 1) f in
            some (record g { spans = g.spans ++ (at, length str + 1) ∷ [] })
      ]

-- `removeSelectedText` between two positions; the editor's own cursor moves with the text.
unfoldable pub remove_between : ℕ → ℕ → MyTextEdit → MyTextEdit
remove_between p q e =
    let low = min p q in
    let high = max p q in
    edited (take low e.text ++ drop high e.text)
      (if leb e.cursor low
        then e.cursor
        else if leb e.cursor high
        then low
        else e.cursor - (high - low))
      e

-- `set_position length new old` is where a cursor at `old` stands after it is set to `new`.
module _ (set_position : ℕ → ℕ → ℕ → ℕ) where
  -- The loop of `eventFilter` at a position: the spans before, and those to come.
  unfoldable pub filter_spans :
      Key → ℕ → List (ℕ × ℕ) → List (ℕ × ℕ) → MyTextEdit → MyTextEdit × Bool
  filter_spans key p done [] e = (e, false)
  filter_spans key p done ((a, b) ∷ rest) e =
      if (is_backspace key && ltb a p && leb p b) || (is_delete key && leb a p && ltb p b)
      then (let start = set_position (length e.text) a p in
          let end = set_position (length e.text) (if p == b then b else b + 1) start in
          (record (remove_between start end e) { spans = done ++ rest }, true))
      else filter_spans key p (done ++ (a, b) ∷ []) rest (
          if leb a p && leb p b
          then record e { cursor = set_position (length e.text) b e.cursor }
          else e)

  -- A press of a key in the editor: the state, and whether the key is taken from the editor.
  unfoldable pub event_filter : Key → MyTextEdit → MyTextEdit × Bool
  event_filter key e = filter_spans key e.cursor [] e.spans e
