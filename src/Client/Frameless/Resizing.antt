-- ===== src/Client/Frameless/Resizing.antt =====
-- client/include/widget/frameless_window.h: what `doResize` promises, and what `hitTest` finds after it.
use cloud_meeting_client.Client.Frameless.{Base, FramelessWindow, Point, Rect, q_bound}
use cloud_meeting_client.Client.Frameless.Window.{
  resize_axis, min_size, max_size, resized, do_resize, hit_test,
}
use cloud_meeting_client.Prelude.{
  pos, ◌≤ℤ◌, +ℤ_parts, arith, ◌-ℤ◌, true, ℤ, false, ◌+ℤ◌, length, eq_of_parts, Bool, -ℤ_parts, ◌≡◌,
  ◌&&◌, if◌then◌else◌,
}

resize_axis_min :
    (low high : Bool) (delta position length min_length max_length : ℤ)
    → min_length ≤ℤ max_length
    → min_length ≤ℤ (resize_axis low high delta position length min_length max_length).1
unfolding resize_axis
resize_axis_min low high delta position length min_length max_length h = ground arith

resize_axis_max :
    (low high : Bool) (delta position length min_length max_length : ℤ)
    → min_length ≤ℤ max_length
    → (resize_axis low high delta position length min_length max_length).1 ≤ℤ max_length
unfolding resize_axis
resize_axis_max low high delta position length min_length max_length h = ground arith

sub_add_cancel : (a b : ℤ) → (a -ℤ b) +ℤ b ≡ a
sub_add_cancel a b =
    eq_of_parts ((a -ℤ b) +ℤ b) a (omega (arith, +ℤ_parts (a -ℤ b) b, -ℤ_parts a b))

add_sub_cancel : (a b : ℤ) → a +ℤ (b -ℤ a) ≡ b
add_sub_cancel a b =
    eq_of_parts (a +ℤ (b -ℤ a)) b (omega (arith, +ℤ_parts a (b -ℤ a), -ℤ_parts b a))

resize_axis_low :
    (high : Bool) (delta position length min_length max_length : ℤ)
    → (resize_axis true high delta position length min_length max_length).0
        +ℤ (resize_axis true high delta position length min_length max_length).1
      ≡ position +ℤ length
unfolding resize_axis
resize_axis_low high delta position length min_length max_length = ground (
  arith,
  sub_add_cancel (position +ℤ length) min_length,
  sub_add_cancel (position +ℤ length) max_length,
  add_sub_cancel (position +ℤ delta) (position +ℤ length),
)

resize_axis_high :
    (high : Bool) (delta position length min_length max_length : ℤ)
    → (resize_axis false high delta position length min_length max_length).0 ≡ position
unfolding resize_axis
resize_axis_high high delta position length min_length max_length = ground arith

low_wanted : (x w delta : ℤ) → (x +ℤ w) -ℤ (x +ℤ delta) ≡ w -ℤ delta
low_wanted x w delta = eq_of_parts ((x +ℤ w) -ℤ (x +ℤ delta)) (w -ℤ delta) (
    omega (arith, -ℤ_parts (x +ℤ w) (x +ℤ delta), +ℤ_parts x w, +ℤ_parts x delta, -ℤ_parts w delta))

-- The length that the mouse asks for.
abbrev pub wanted : Bool → Bool → ℤ → ℤ → ℤ
wanted low high delta length =
    if low then length -ℤ delta else if high then length +ℤ delta else length

resize_axis_length :
    (low high : Bool) (delta x w min_length max_length : ℤ)
    → min_length ≤ℤ max_length
    → (resize_axis low high delta x w min_length max_length).1
      ≡ q_bound min_length (wanted low high delta w) max_length
unfolding resize_axis
resize_axis_length true high delta x w min_length max_length h =
    rw (low_wanted x w delta) (ground arith)
resize_axis_length false high delta x w min_length max_length h = ground arith

-- What a drag along one axis promises: the length that the mouse asks for, moved into its bounds; the
-- edge that is not dragged where it was; and a length within the bounds.
abbrev pub IsDragged : Bool → Bool → ℤ → ℤ → ℤ → ℤ → ℤ → ℤ → ℤ → Type 0
IsDragged low high delta x w min_length max_length x' w' =
    (w' ≡ q_bound min_length (wanted low high delta w) max_length)
    × ((if low then x' +ℤ w' else x') ≡ (if low then x +ℤ w else x))
    × (min_length ≤ℤ w')
    × (w' ≤ℤ max_length)

resize_axis-IsDragged :
    (low high : Bool) (delta position length min_length max_length : ℤ)
    → min_length ≤ℤ max_length
    → IsDragged low high delta position length min_length max_length
        (resize_axis low high delta position length min_length max_length).0
        (resize_axis low high delta position length min_length max_length).1
resize_axis-IsDragged true high d x w m n h = (
  resize_axis_length true high d x w m n h,
  resize_axis_low high d x w m n,
  resize_axis_min true high d x w m n h,
  resize_axis_max true high d x w m n h,
)
resize_axis-IsDragged false high d x w m n h = (
  resize_axis_length false high d x w m n h,
  resize_axis_high high d x w m n,
  resize_axis_min false high d x w m n h,
  resize_axis_max false high d x w m n h,
)

module _ {B : Type 0} (ops : Base B) where
  -- The bounds of the size leave room: the least size is not above the greatest.
  abbrev pub HasRoom : B → Type 0
  HasRoom b =
      ((min_size ops b).width ≤ℤ (max_size ops b).width)
      × ((min_size ops b).height ≤ℤ (max_size ops b).height)

  -- A geometry within the bounds of the size.
  abbrev pub Fits : Rect → B → Type 0
  Fits r b =
      ((min_size ops b).width ≤ℤ r.width)
      × (r.width ≤ℤ (max_size ops b).width)
      × ((min_size ops b).height ≤ℤ r.height)
      × (r.height ≤ℤ (max_size ops b).height)

  resized-Fits :
      (p : Point) (w : FramelessWindow B) → HasRoom w.base → Fits (resized ops p w) w.base
  unfolding resized
  resized-Fits p w (h, v) = (
    resize_axis_min w.resize_region.left w.resize_region.right (p.x -ℤ w.drag_global_pos.x)
        w.drag_geometry.x w.drag_geometry.width (min_size ops w.base).width
        (max_size ops w.base).width h,
    resize_axis_max w.resize_region.left w.resize_region.right (p.x -ℤ w.drag_global_pos.x)
        w.drag_geometry.x w.drag_geometry.width (min_size ops w.base).width
        (max_size ops w.base).width h,
    resize_axis_min w.resize_region.top w.resize_region.bottom (p.y -ℤ w.drag_global_pos.y)
        w.drag_geometry.y w.drag_geometry.height (min_size ops w.base).height
        (max_size ops w.base).height v,
    resize_axis_max w.resize_region.top w.resize_region.bottom (p.y -ℤ w.drag_global_pos.y)
        w.drag_geometry.y w.drag_geometry.height (min_size ops w.base).height
        (max_size ops w.base).height v,
  )

  -- While the window is resized, its width and height are what the way of the mouse since the press
  -- makes of them, moved into the bounds of the size, and on each axis the edge that is not dragged
  -- stays where it was at the press. The condition: the
  -- widget takes a geometry that is within its bounds as it is, and the least size is not above the
  -- greatest.
  pub do_resize-IsDragged :
      (p : Point) (w : FramelessWindow B)
      → HasRoom w.base
      → ((r : Rect) → Fits r w.base → ops.geometry (ops.set_geometry r w.base) ≡ r)
      → IsDragged w.resize_region.left w.resize_region.right
          (p.x -ℤ w.drag_global_pos.x)
          w.drag_geometry.x
          w.drag_geometry.width
          (min_size ops w.base).width
          (max_size ops w.base).width
          (ops.geometry (do_resize ops p w).base).x
          (ops.geometry (do_resize ops p w).base).width
        × IsDragged w.resize_region.top w.resize_region.bottom
            (p.y -ℤ w.drag_global_pos.y)
            w.drag_geometry.y
            w.drag_geometry.height
            (min_size ops w.base).height
            (max_size ops w.base).height
            (ops.geometry (do_resize ops p w).base).y
            (ops.geometry (do_resize ops p w).base).height
  unfolding do_resize resized
  do_resize-IsDragged p w room law = rw (law (resized ops p w) (resized-Fits p w room)) (
    resize_axis-IsDragged w.resize_region.left w.resize_region.right (p.x -ℤ w.drag_global_pos.x)
        w.drag_geometry.x w.drag_geometry.width (min_size ops w.base).width
        (max_size ops w.base).width room.0,
    resize_axis-IsDragged w.resize_region.top w.resize_region.bottom (p.y -ℤ w.drag_global_pos.y)
        w.drag_geometry.y w.drag_geometry.height (min_size ops w.base).height
        (max_size ops w.base).height room.1,
  )

  hit_test_apart :
      (p : Point) (w : FramelessWindow B)
      → pos 12 ≤ℤ (ops.geometry w.base).width
      → pos 12 ≤ℤ (ops.geometry w.base).height
      → (((hit_test ops p w).left && (hit_test ops p w).right) ≡ false)
        × (((hit_test ops p w).top && (hit_test ops p w).bottom) ≡ false)
  unfolding hit_test ◌-ℤ◌
  hit_test_apart p w h v = (ground arith, ground arith)

  min_size_border :
      (b : B) → (pos 12 ≤ℤ (min_size ops b).width) × (pos 12 ≤ℤ (min_size ops b).height)
  unfolding min_size ◌+ℤ◌
  min_size_border b = (ground arith, ground arith)

  -- After a step of resizing no point is at two opposite edges of the window. The conditions are
  -- those of the step.
  pub hit_test-do_resize :
      (p q : Point) (w : FramelessWindow B)
      → HasRoom w.base
      → ((r : Rect) → Fits r w.base → ops.geometry (ops.set_geometry r w.base) ≡ r)
      → (((hit_test ops q (do_resize ops p w)).left && (hit_test ops q (do_resize ops p w)).right)
          ≡ false)
        × (((hit_test ops q (do_resize ops p w)).top && (hit_test ops q (do_resize ops p w)).bottom)
            ≡ false)
  hit_test-do_resize p q w room law =
      let d = do_resize-IsDragged p w room law in
      let m = min_size_border w.base in
      hit_test_apart q (do_resize ops p w) (omega arith) (omega arith)
