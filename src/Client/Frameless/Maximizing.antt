-- ===== src/Client/Frameless/Maximizing.antt =====
-- client/include/widget/frameless_window.h: a window that is maximized and restored.
use cloud_meeting_client.Client.Frameless.{
  Base, FramelessWindow, Rect, Size, is_valid_rect, widget_size_max, no_size, maximize_icon,
  restore_icon,
}
use cloud_meeting_client.Client.Frameless.Window.{
  toggle_maximize, restore_max_size, restore_geometry, update_title_buttons_geometry,
  update_maximize_button_icon,
}
use cloud_meeting_client.Prelude.{◌≡◌, arith, if◌then◌else◌, true, ◌≤ℤ◌, false, pos, ap, ◌∙◌}

-- A size that Qt takes as a maximum as it is.
abbrev pub IsAllowed : Size → Type 0
IsAllowed s =
    (pos 0 ≤ℤ s.width)
    × (s.width ≤ℤ widget_size_max)
    × (pos 0 ≤ℤ s.height)
    × (s.height ≤ℤ widget_size_max)

-- A rectangle with an area, not beyond a maximum.
abbrev pub IsWithin : Rect → Size → Type 0
IsWithin r s = (is_valid_rect r ≡ true) × (r.width ≤ℤ s.width) × (r.height ≤ℤ s.height)

-- A rectangle that is not below a minimum.
abbrev pub IsAbove : Size → Rect → Type 0
IsAbove s r = (s.width ≤ℤ r.width) × (s.height ≤ℤ r.height)

-- What is taken of the widget's calls. Qt documents: a geometry within the minimum and the maximum
-- size is the one that is set, a maximum size that is allowed is the one that is set, and
-- `showMaximized` and `showNormal` show the widget maximized and not maximized. Qt's documentation
-- names no other effect of these calls; taken beside it is that they have none: setting the maximum
-- size and showing the widget leave the minimum size, setting the geometry leaves the maximum size,
-- and neither setting maximizes a widget that is not maximized.
pub record BaseLaws {B : Type 0} (ops : Base B) : Type 0 where
  pub geometry_set :
      (r : Rect) (b : B)
      → IsAbove (ops.minimum_size b) r
      → IsWithin r (ops.maximum_size b)
      → ops.geometry (ops.set_geometry r b) ≡ r
  pub maximum_set :
      (s : Size) (b : B) → IsAllowed s → ops.maximum_size (ops.set_maximum_size s b) ≡ s
  pub minimum_set :
      (s : Size) (b : B) → ops.minimum_size (ops.set_maximum_size s b) ≡ ops.minimum_size b
  pub minimum_maximized : (b : B) → ops.minimum_size (ops.show_maximized b) ≡ ops.minimum_size b
  pub minimum_normal : (b : B) → ops.minimum_size (ops.show_normal b) ≡ ops.minimum_size b
  pub maximum_geometry :
      (r : Rect) (b : B) → ops.maximum_size (ops.set_geometry r b) ≡ ops.maximum_size b
  pub shown_maximized : (b : B) → ops.is_maximized (ops.show_maximized b) ≡ true
  pub shown_normal : (b : B) → ops.is_maximized (ops.show_normal b) ≡ false
  pub maximized_maximum :
      (s : Size) (b : B)
      → ops.is_maximized b ≡ false
      → ops.is_maximized (ops.set_maximum_size s b) ≡ false
  pub maximized_geometry :
      (r : Rect) (b : B)
      → ops.is_maximized b ≡ false
      → ops.is_maximized (ops.set_geometry r b) ≡ false

module _ {B : Type 0} (ops : Base B) where
  abbrev big : Size
  big = record { width = widget_size_max; height = widget_size_max }

  -- The widget while it is maximized, and after it is restored.
  abbrev maximized_base : FramelessWindow B → B
  maximized_base w = ops.show_maximized (ops.set_maximum_size big w.base)

  abbrev restored_base : FramelessWindow B → B
  restored_base w =
      ops.set_geometry (ops.geometry w.base)
        (ops.set_maximum_size (ops.maximum_size w.base) (ops.show_normal (maximized_base w)))

  toggle_maximize_twice :
      (w : FramelessWindow B)
      → ((b : B) → ops.is_maximized (ops.show_maximized b) ≡ true)
      → w.maximizable ≡ true
      → ops.is_maximized w.base ≡ false
      → IsAllowed (ops.maximum_size w.base)
      → is_valid_rect (ops.geometry w.base) ≡ true
      → ((toggle_maximize ops (toggle_maximize ops w)).base ≡ restored_base w)
        × ((toggle_maximize ops (toggle_maximize ops w)).icon
            ≡ (if ops.is_maximized (restored_base w) then restore_icon else maximize_icon))
        × ((toggle_maximize ops (toggle_maximize ops w)).saved_max_size ≡ no_size)
  unfolding toggle_maximize restore_max_size restore_geometry update_title_buttons_geometry
      update_maximize_button_icon
  toggle_maximize_twice w law m n a v = ground (arith, law (ops.set_maximum_size big w.base))

  restored_base_lem :
      (laws : BaseLaws ops) (w : FramelessWindow B)
      → IsAllowed (ops.maximum_size w.base)
      → IsAbove (ops.minimum_size w.base) (ops.geometry w.base)
      → IsWithin (ops.geometry w.base) (ops.maximum_size w.base)
      → (ops.geometry (restored_base w) ≡ ops.geometry w.base)
        × (ops.maximum_size (restored_base w) ≡ ops.maximum_size w.base)
        × (ops.is_maximized (restored_base w) ≡ false)
  restored_base_lem laws w a s v =
      let b = ops.show_normal (maximized_base w) in
      let m = laws.maximum_set (ops.maximum_size w.base) b a in
      let l : ops.minimum_size (ops.set_maximum_size (ops.maximum_size w.base) b)
          ≡ ops.minimum_size w.base =
        laws.minimum_set (ops.maximum_size w.base) b
        ∙ laws.minimum_normal (maximized_base w)
        ∙ laws.minimum_maximized (ops.set_maximum_size big w.base)
        ∙ laws.minimum_set big w.base in
      (
        laws.geometry_set (ops.geometry w.base) (ops.set_maximum_size (ops.maximum_size w.base) b)
            (rw l s) (rw m v),
        laws.maximum_geometry (ops.geometry w.base)
              (ops.set_maximum_size (ops.maximum_size w.base) b)
            ∙ m,
        laws.maximized_geometry (ops.geometry w.base)
            (ops.set_maximum_size (ops.maximum_size w.base) b)
            (laws.maximized_maximum (ops.maximum_size w.base) b
              (laws.shown_normal (maximized_base w))),
      )

  -- A window that may be maximized and is not is, after the maximize button has been clicked twice,
  -- where it was and with the size it had, is not maximized, has the maximum size it had and the
  -- button's icon for maximizing, and has no maximum size saved. The conditions: its maximum size is
  -- one that Qt allows, its geometry has an area and is within its minimum and maximum size, and the
  -- widget obeys `BaseLaws`: a geometry within the minimum and the maximum size, and a maximum size
  -- that is allowed, are set as given; `showMaximized` and `showNormal` do what they say and, like
  -- setting the maximum size, leave the minimum size; setting the geometry leaves the maximum size;
  -- and neither setting maximizes a widget that is not maximized.
  pub toggle_maximize-toggle_maximize :
      (laws : BaseLaws ops) (w : FramelessWindow B)
      → w.maximizable ≡ true
      → ops.is_maximized w.base ≡ false
      → IsAllowed (ops.maximum_size w.base)
      → IsAbove (ops.minimum_size w.base) (ops.geometry w.base)
      → IsWithin (ops.geometry w.base) (ops.maximum_size w.base)
      → (ops.geometry (toggle_maximize ops (toggle_maximize ops w)).base ≡ ops.geometry w.base)
        × (ops.maximum_size (toggle_maximize ops (toggle_maximize ops w)).base
            ≡ ops.maximum_size w.base)
        × (ops.is_maximized (toggle_maximize ops (toggle_maximize ops w)).base ≡ false)
        × ((toggle_maximize ops (toggle_maximize ops w)).icon ≡ maximize_icon)
        × ((toggle_maximize ops (toggle_maximize ops w)).saved_max_size ≡ no_size)
  toggle_maximize-toggle_maximize laws w m n a s v =
      let t = toggle_maximize_twice w laws.shown_maximized m n a v.0 in
      let r = restored_base_lem laws w a s v in
      (
        ap ops.geometry t.0 ∙ r.0,
        ap ops.maximum_size t.0 ∙ r.1,
        ap ops.is_maximized t.0 ∙ r.2,
        t.1 ∙ ap (λ b. if b then restore_icon else maximize_icon) r.2,
        t.2,
      )
