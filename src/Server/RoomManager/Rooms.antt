-- ===== src/Server/RoomManager/Rooms.antt =====
-- room_manager.cpp: the map of rooms.
use cloud_meeting_client.Server.Room.{Room}
use cloud_meeting_client.Prelude.{
  Map, subst, All, lookup, ◌≡◌, put, some, ◌==◌, arith, Bool-cases, [], emplace, inl, inr, erase,
  ◌∷◌, ℕ,
}

-- A property of all rooms survives a new room, a change to one, and a removal.
module _ (P : Room → Type 0) where
  abbrev pub AllRooms : Map Room → Type 0
  AllRooms = All (λ (e : ℕ × Room). P e.1)

  pub emplace-AllRooms :
      (k : ℕ) (r : Room) (m : Map Room) → P r → AllRooms m → AllRooms (emplace k r m)
  emplace-AllRooms k r [] p h = (p, tt)
  emplace-AllRooms k r ((j, s) ∷ m) p h = ground (arith, emplace-AllRooms k r m p h.1)

  pub put-AllRooms : (k : ℕ) (r : Room) (m : Map Room) → P r → AllRooms m → AllRooms (put k r m)
  put-AllRooms k r [] p h = tt
  put-AllRooms k r ((j, s) ∷ m) p h = ground (arith, put-AllRooms k r m p h.1)

  pub erase-AllRooms : (k : ℕ) (m : Map Room) → AllRooms m → AllRooms (erase k m)
  erase-AllRooms k [] h = tt
  erase-AllRooms k ((j, s) ∷ m) h = ground (arith, erase-AllRooms k m h.1)

  pub lookup-AllRooms : (k : ℕ) (r : Room) (m : Map Room) → lookup k m ≡ some r → AllRooms m → P r
  lookup-AllRooms k r [] e h = cc
  lookup-AllRooms k r ((j, s) ∷ m) e h = elim (Bool-cases (j == k)) [
    | inl hit ↦ let q : s ≡ r = ground (arith, e, hit) in subst P q h.0
    | inr miss ↦ lookup-AllRooms k r m (ground (arith, e, miss)) h.1
  ]
