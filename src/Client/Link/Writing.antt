-- ===== src/Client/Link/Writing.antt =====
-- client/src/network/messageNet/connection.cpp: the loop that writes a frame.
use cloud_meeting_client.Client.Link.{temporary_error, write_error, write_loop, WriteResult, wrote}
use cloud_meeting_client.Prelude.{
  length, List, Bytes, ◌≡◌, drop, true, length-drop, ap, false, arith, ◌==◌, ℕ, ◌<◌, suc, All, refl,
  ◌∷◌, [], take-append-drop, some, ◌≤◌,
}

-- A write that takes some bytes, or fails for a while.
abbrev pub Progresses : WriteResult → Type 0
Progresses (wrote n) = 0 < n
Progresses temporary_error = Unit {0}
Progresses write_error = ⊥

-- How many writes of a list are not failures.
abbrev pub writes : List WriteResult → ℕ
writes [] = 0
writes (wrote n ∷ returns) = suc (writes returns)
writes (temporary_error ∷ returns) = writes returns
writes (write_error ∷ returns) = writes returns

-- When every write takes some bytes or fails for a while, and there are as many of the first kind as the
-- frame has bytes, the loop ends, returns true, and the socket has taken exactly the frame.
pub write_loop-frame :
    (returns : List WriteResult) (frame : Bytes)
    → All Progresses returns
    → length frame ≤ writes returns
    → write_loop returns frame ≡ (some true, frame)
unfolding write_loop
write_loop-frame returns [] a h = refl
write_loop-frame [] (x ∷ left) a h = absurd (omega arith)
write_loop-frame (temporary_error ∷ returns) (x ∷ left) a h =
    write_loop-frame returns (x ∷ left) a.1 h
write_loop-frame (write_error ∷ returns) (x ∷ left) a h = absurd a.0
write_loop-frame (wrote n ∷ returns) (x ∷ left) a h =
    let positive : (n == 0) ≡ false = ground (arith, a.0) in
    rw
      (
        positive,
        write_loop-frame returns (drop n (x ∷ left)) a.1
            (omega (arith, a.0, length-drop n (x ∷ left))),
      )
      (ap (λ t. (some true, t)) (take-append-drop n (x ∷ left)))
