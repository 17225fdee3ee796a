-- ===== src/Client/Codec/Streams.antt =====
-- client/src/network/messageNet/messagecodec.cpp: the parser's loop on a stream in two parts.
use cloud_meeting_client.Client.Message.{Message}
use cloud_meeting_client.Client.Codec.Prefix.{extract_one-append, word_at}
use cloud_meeting_client.Client.Codec.{
  Qt, packet_size, cons_some, extract_one, extract_loop, extract_all,
}
use cloud_meeting_client.Prelude.{
  ap, ltb, List, some, suc, ◌++◌, arith, inr, lt→ltb, inl, [], length, ℕ, Option, ◌≤◌, zero, Bytes,
  length-drop, Bool-cases, if◌then◌else◌, drop, ◌≡◌, refl, none, ltb-eq-false, length-append, ◌∙◌,
  drop-append_le,
}

cons_some-append :
    {A : Type 0} (o : Option A) (ms ns : List A) → cons_some o (ms ++ ns) ≡ cons_some o ms ++ ns
cons_some-append none ms ns = refl
cons_some-append (some m) ms ns = refl

module _ (qt : Qt) where
  open qt use {Image}

  abbrev one_round : Bytes → List (Message Image) × Bytes → List (Message Image) × Bytes
  one_round buffer rest =
      if ltb (length buffer) 11
      then ([], buffer)
      else if ltb (length buffer) (packet_size buffer)
      then ([], buffer)
      else (cons_some (extract_one qt buffer) rest.0, rest.1)

  -- As many rounds of the parser's loop as there are bytes in the buffer are enough: any two such
  -- numbers of rounds give the same messages and the same rest.
  pub extract_loop_enough :
      (m n : ℕ) (buffer : Bytes)
      → length buffer ≤ m
      → length buffer ≤ n
      → extract_loop qt m buffer ≡ extract_loop qt n buffer
  unfolding extract_loop
  extract_loop_enough zero zero buffer h k = refl
  extract_loop_enough zero (suc n) buffer h k = rw (lt→ltb (length buffer) 11 (omega arith)) refl
  extract_loop_enough (suc m) zero buffer h k = rw (lt→ltb (length buffer) 11 (omega arith)) refl
  extract_loop_enough (suc m) (suc n) buffer h k = ap (one_round buffer) (
      extract_loop_enough m n (drop (packet_size buffer) buffer)
        (omega (arith, length-drop (packet_size buffer) buffer))
        (omega (arith, length-drop (packet_size buffer) buffer)))

  extract_loop_step :
      (n : ℕ) (buffer : Bytes)
      → 11 ≤ length buffer
      → packet_size buffer ≤ length buffer
      → length buffer ≤ suc n
      → extract_loop qt (suc n) buffer ≡ (
        cons_some (extract_one qt buffer) (extract_all qt (drop (packet_size buffer) buffer)).0,
        (extract_all qt (drop (packet_size buffer) buffer)).1,
      )
  unfolding extract_all extract_loop
  extract_loop_step n buffer h k enough =
      rw
        (
          ltb-eq-false (length buffer) 11 h,
          ltb-eq-false (length buffer) (packet_size buffer) k,
          extract_loop_enough n (length (drop (packet_size buffer) buffer))
              (drop (packet_size buffer) buffer)
              (omega (arith, length-drop (packet_size buffer) buffer)) (omega arith),
        )
        refl

  -- Parsing goes on with what the first part left.
  abbrev pub then_parse : List (Message Image) × Bytes → Bytes → List (Message Image) × Bytes
  then_parse first ys =
      (first.0 ++ (extract_all qt (first.1 ++ ys)).0, (extract_all qt (first.1 ++ ys)).1)

  pub extract_all_step :
      (buffer : Bytes)
      → 11 ≤ length buffer
      → packet_size buffer ≤ length buffer
      → extract_all qt buffer ≡ (
        cons_some (extract_one qt buffer) (extract_all qt (drop (packet_size buffer) buffer)).0,
        (extract_all qt (drop (packet_size buffer) buffer)).1,
      )
  unfolding extract_all
  extract_all_step buffer h k =
      extract_loop_enough (length buffer) (suc (length buffer)) buffer (omega arith) (omega arith)
      ∙ extract_loop_step (length buffer) buffer h k (omega arith)

  packet-append :
      (xs ys : Bytes) (rest : List (Message Image) × Bytes)
      → 11 ≤ length xs
      → packet_size xs ≤ length xs
      → extract_all qt (drop (packet_size xs) xs ++ ys) ≡ then_parse rest ys
      → extract_all qt (xs ++ ys) ≡ then_parse (cons_some (extract_one qt xs) rest.0, rest.1) ys
  packet-append xs ys rest h k next =
      extract_all_step (xs ++ ys) (omega (arith, length-append xs ys))
        (rw (word_at xs ys 7 (omega arith)) (omega (arith, length-append xs ys)))
      ∙ rw
          (
            extract_one-append qt xs ys h k,
            word_at xs ys 7 (omega arith),
            drop-append_le xs ys (packet_size xs) k,
            next,
            cons_some-append (extract_one qt xs) rest.0 (extract_all qt (rest.1 ++ ys)).0,
          )
          refl

  -- The messages of a stream are the messages of its first part and then those that the rest of that
  -- part and the second part give.
  pub extract_loop-append :
      (n : ℕ) (xs ys : Bytes)
      → length xs ≤ n
      → extract_all qt (xs ++ ys) ≡ then_parse (extract_loop qt n xs) ys
  unfolding extract_loop
  extract_loop-append zero xs ys h = refl
  extract_loop-append (suc n) xs ys h = elim (Bool-cases (ltb (length xs) 11)) [
    | inl e ↦ rw e refl
    | inr e ↦ elim (Bool-cases (ltb (length xs) (packet_size xs))) [
      | inl f ↦ rw (e, f) refl
      | inr f ↦
          rw (e, f)
            (packet-append xs ys (extract_loop qt n (drop (packet_size xs) xs)) (ground arith)
              (ground arith)
              (extract_loop-append n (drop (packet_size xs) xs) ys
                (omega (arith, length-drop (packet_size xs) xs))))
    ]
  ]

  pub extract_loop-rest :
      (n : ℕ) (buffer : Bytes) → length (extract_loop qt n buffer).1 ≤ length buffer
  unfolding extract_loop
  extract_loop-rest zero buffer = omega arith
  extract_loop-rest (suc n) buffer =
      let next = extract_loop-rest n (drop (packet_size buffer) buffer) in
      ground (arith, length-drop (packet_size buffer) buffer)
