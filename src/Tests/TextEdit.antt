-- ===== src/Tests/TextEdit.antt =====
-- The theorems on the input field of the chat (client/src/message/text) at concrete texts.
use cloud_meeting_client.Client.TextEdit.{
  MyTextEdit, backspace_key, inserted, change_completion, event_filter, last_at, without_prefix,
}
use cloud_meeting_client.Client.TextEdit.Spans.{event_filter_lem, event_filter-change_completion}
use cloud_meeting_client.Prelude.{
  some, ℕ, [], ◌≡◌, take, true, Bytes, refl, ◌≤◌, leb, ◌∷◌, arith, length, if◌then◌else◌,
}

-- Behind "a @".
abbrev asking : MyTextEdit
asking = record {
  text = b'a' ∷ b' ' ∷ b'@' ∷ [];
  cursor = 3;
  spans = [];
  completer = some ((b'@' ∷ b'7' ∷ []) ∷ []);
  prefix = b'@' ∷ [];
  is_shown = true;
}

abbrev at_the_end : Bytes → ℕ → ℕ
at_the_end text cursor = length text

abbrev stays_within : ℕ → ℕ → ℕ → ℕ
stays_within n new old = if leb new n then new else old

stays_within_lem : (n new old : ℕ) → new ≤ n → stays_within n new old ≡ new
stays_within_lem n new old h = ground (arith, h)

abbrev chosen : Bytes
chosen = inserted at_the_end (b'@' ∷ b'7' ∷ []) asking

found_at : last_at chosen ≡ some 2
unfolding last_at inserted without_prefix
found_at = refl

event_filter-change_completion_example :
    (f : MyTextEdit) × (change_completion at_the_end (b'@' ∷ b'7' ∷ []) asking ≡ some f)
    × (let out = event_filter stays_within backspace_key f in
        (out.1 ≡ true) × (out.0.text ≡ take 2 chosen) × (out.0.cursor ≡ 2) × (out.0.spans ≡ []))
event_filter-change_completion_example =
    event_filter-change_completion stays_within at_the_end (b'@' ∷ b'7' ∷ []) 2 asking
      stays_within_lem found_at tt

-- "@7 b", with the cursor in the address.
abbrev between : MyTextEdit
between = record asking { text = b'@' ∷ b'7' ∷ b' ' ∷ b'b' ∷ []; cursor = 1; spans = (0, 3) ∷ [] }

event_filter_lem_example :
    let out = event_filter stays_within backspace_key between in
    (out.1 ≡ true) × (out.0.text ≡ []) × (out.0.cursor ≡ 0) × (out.0.spans ≡ [])
event_filter_lem_example =
    event_filter_lem stays_within 0 3 [] [] between stays_within_lem refl tt (omega arith)
      (omega arith) (omega arith)
