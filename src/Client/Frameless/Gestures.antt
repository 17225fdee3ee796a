-- ===== src/Client/Frameless/Gestures.antt =====
-- client/include/widget/frameless_window.h: the states that the events of the mouse lead to, and the
-- way of a window that is dragged.
use cloud_meeting_client.Client.Frameless.{Base, FramelessWindow, MouseEvent, Point, is_region}
use cloud_meeting_client.Client.Frameless.Window.{
  mouse_press_event, press_left, press_title, mouse_move_event, mouse_release_event,
  mouse_double_click_event, hover_move, restore_from_maximized_at, restore_max_size,
  restore_geometry, toggle_maximize, update_title_buttons_geometry, update_maximize_button_icon,
  update_cursor, hit_test, do_resize, is_in_title_bar, is_over_title_button,
}
use cloud_meeting_client.Prelude.{
  ℤ, not, ◌&&◌, arith, ◌||◌, ◌≡◌, Bool, false, true, eq_of_parts, ◌-ℤ◌, +ℤ_parts, ◌+ℤ◌, -ℤ_parts,
}

module _ {B : Type 0} (ops : Base B) (share : ℤ → ℤ → ℤ → ℤ) where
  -- The windows that presses, moves, releases, double clicks and hovers lead to from an idle one, and
  -- whether the left button is down: it is pressed only when it is up, a double click comes in place
  -- of a press, and a move tells whether it is down. Other buttons leave it as it is.
  pub data Reach : FramelessWindow B → Bool → Type 0 where
    idle :
        (w : FramelessWindow B)
        → w.dragging ≡ false
        → w.resizing ≡ false
        → is_region w.resize_region ≡ false
        → Reach w false
    pressed :
        (w : FramelessWindow B) (e : MouseEvent)
        → e.is_left ≡ true
        → Reach w false
        → Reach (mouse_press_event ops share e w).0 true
    pressed_other :
        (w : FramelessWindow B) (down : Bool) (e : MouseEvent)
        → e.is_left ≡ false
        → Reach w down
        → Reach (mouse_press_event ops share e w).0 down
    moved :
        (w : FramelessWindow B) (down : Bool) (e : MouseEvent)
        → e.left_down ≡ down
        → Reach w down
        → Reach (mouse_move_event ops e w).0 down
    released :
        (w : FramelessWindow B) (down : Bool) (e : MouseEvent)
        → e.is_left ≡ true
        → Reach w down
        → Reach (mouse_release_event ops e w).0 false
    released_other :
        (w : FramelessWindow B) (down : Bool) (e : MouseEvent)
        → e.is_left ≡ false
        → Reach w down
        → Reach (mouse_release_event ops e w).0 down
    double_clicked :
        (w : FramelessWindow B) (e : MouseEvent)
        → e.is_left ≡ true
        → Reach w false
        → Reach (mouse_double_click_event ops share e w).0 true
    double_clicked_other :
        (w : FramelessWindow B) (down : Bool) (e : MouseEvent)
        → e.is_left ≡ false
        → Reach w down
        → Reach (mouse_double_click_event ops share e w).0 down
    hovered :
        (w : FramelessWindow B) (down : Bool) (p : Point)
        → Reach w down
        → Reach (hover_move ops p w) down

  -- Never both dragged and resized; resized exactly while there is a region; and neither while the
  -- left button is up.
  abbrev pub IsTracked : FramelessWindow B → Bool → Type 0
  IsTracked w down =
      ((w.dragging && w.resizing) ≡ false)
      × (w.resizing ≡ is_region w.resize_region)
      × (((w.dragging || w.resizing) && not down) ≡ false)

  restore_frame :
      (p q : Point) (w : FramelessWindow B)
      → ((restore_from_maximized_at ops share p q w).resizing ≡ w.resizing)
        × ((restore_from_maximized_at ops share p q w).resize_region ≡ w.resize_region)
  unfolding restore_from_maximized_at restore_max_size update_title_buttons_geometry
      update_maximize_button_icon
  restore_frame p q w = (ground arith, ground arith)

  toggle-IsTracked :
      (w : FramelessWindow B) (down : Bool)
      → IsTracked w down
      → IsTracked (toggle_maximize ops w) down
  unfolding toggle_maximize restore_max_size restore_geometry update_title_buttons_geometry
      update_maximize_button_icon
  toggle-IsTracked w down h = ground arith

  press_title-IsTracked :
      (e : MouseEvent) (w : FramelessWindow B)
      → IsTracked w false
      → IsTracked (press_title ops share e w).0 true
  unfolding press_title
  press_title-IsTracked e w h = ground (arith, restore_frame e.global_position e.position w)

  press-IsTracked :
      (e : MouseEvent) (w : FramelessWindow B)
      → IsTracked w false
      → IsTracked (mouse_press_event ops share e w).0 true
  unfolding mouse_press_event press_left
  press-IsTracked e w h = ground (
    arith,
    press_title-IsTracked e w h,
    press_title-IsTracked e (record w { resize_region = hit_test ops e.position w }),
  )

  press_other-IsTracked :
      (e : MouseEvent) (w : FramelessWindow B) (down : Bool)
      → e.is_left ≡ false
      → IsTracked w down
      → IsTracked (mouse_press_event ops share e w).0 down
  unfolding mouse_press_event
  press_other-IsTracked e w down l h = ground arith

  release_other-IsTracked :
      (e : MouseEvent) (w : FramelessWindow B) (down : Bool)
      → e.is_left ≡ false
      → IsTracked w down
      → IsTracked (mouse_release_event ops e w).0 down
  unfolding mouse_release_event
  release_other-IsTracked e w down l h = ground arith

  move-IsTracked :
      (e : MouseEvent) (w : FramelessWindow B) (down : Bool)
      → IsTracked w down
      → IsTracked (mouse_move_event ops e w).0 down
  unfolding mouse_move_event do_resize update_cursor
  move-IsTracked e w down h = ground arith

  release-IsTracked :
      (e : MouseEvent) (w : FramelessWindow B) (down : Bool)
      → e.is_left ≡ true
      → IsTracked w down
      → IsTracked (mouse_release_event ops e w).0 false
  unfolding mouse_release_event
  release-IsTracked e w down l h = ground arith

  double_click-IsTracked :
      (e : MouseEvent) (w : FramelessWindow B)
      → IsTracked w false
      → IsTracked (mouse_double_click_event ops share e w).0 true
  unfolding mouse_double_click_event
  double_click-IsTracked e w h = ground (arith, toggle-IsTracked w true, press-IsTracked e w h)

  double_click_other-IsTracked :
      (e : MouseEvent) (w : FramelessWindow B) (down : Bool)
      → e.is_left ≡ false
      → IsTracked w down
      → IsTracked (mouse_double_click_event ops share e w).0 down
  unfolding mouse_double_click_event
  double_click_other-IsTracked e w down l h = ground (arith, press_other-IsTracked e w down l h)

  hover-IsTracked :
      (p : Point) (w : FramelessWindow B) (down : Bool)
      → IsTracked w down
      → IsTracked (hover_move ops p w) down
  unfolding hover_move update_cursor
  hover-IsTracked p w down h = ground arith

  -- After any presses, moves, releases, double clicks and hovers of any buttons, from an idle window on
  -- and with the left button pressed or double clicked only while it is up, the window is not dragged
  -- and resized at once, it is resized exactly while there is a region to resize, and while the left
  -- button is up it is neither dragged nor resized.
  pub Reach-IsTracked : (w : FramelessWindow B) (down : Bool) → Reach w down → IsTracked w down
  Reach-IsTracked _ _ (idle w d r n) = ground arith
  Reach-IsTracked _ _ (pressed w e l h) = press-IsTracked e w (Reach-IsTracked w false h)
  Reach-IsTracked _ _ (pressed_other w down e l h) =
      press_other-IsTracked e w down l (Reach-IsTracked w down h)
  Reach-IsTracked _ _ (moved w down e l h) = move-IsTracked e w down (Reach-IsTracked w down h)
  Reach-IsTracked _ _ (released w down e l h) =
      release-IsTracked e w down l (Reach-IsTracked w down h)
  Reach-IsTracked _ _ (released_other w down e l h) =
      release_other-IsTracked e w down l (Reach-IsTracked w down h)
  Reach-IsTracked _ _ (double_clicked w e l h) =
      double_click-IsTracked e w (Reach-IsTracked w false h)
  Reach-IsTracked _ _ (double_clicked_other w down e l h) =
      double_click_other-IsTracked e w down l (Reach-IsTracked w down h)
  Reach-IsTracked _ _ (hovered w down p h) = hover-IsTracked p w down (Reach-IsTracked w down h)

  offset_back : (a b c : ℤ) → a -ℤ (b -ℤ c) ≡ c +ℤ (a -ℤ b)
  offset_back a b c =
      eq_of_parts (a -ℤ (b -ℤ c)) (c +ℤ (a -ℤ b))
        (omega (arith, -ℤ_parts a (b -ℤ c), -ℤ_parts b c, -ℤ_parts a b, +ℤ_parts c (a -ℤ b)))

  -- A window that is not maximized and is pressed in its title bar, not at an edge and not on a
  -- button, moves with the mouse: on a move with the button down, its corner is moved from where it
  -- was at the press by as much as the mouse. The window was not being resized.
  pub mouse_move_event-mouse_press_event :
      (e f : MouseEvent) (w : FramelessWindow B)
      → e.is_left ≡ true
      → f.left_down ≡ true
      → w.resizing ≡ false
      → ops.is_maximized w.base ≡ false
      → is_region (hit_test ops e.position w) ≡ false
      → is_in_title_bar ops e.position w ≡ true
      → is_over_title_button ops e.position w ≡ false
      → (mouse_move_event ops f (mouse_press_event ops share e w).0).0.base
        ≡ ops.move_to
            (record {
              x = (ops.frame_geometry w.base).x +ℤ (f.global_position.x -ℤ e.global_position.x);
              y = (ops.frame_geometry w.base).y +ℤ (f.global_position.y -ℤ e.global_position.y);
            })
            w.base
  unfolding mouse_move_event mouse_press_event press_left press_title is_in_title_bar
      is_over_title_button hit_test
  mouse_move_event-mouse_press_event e f w l d n m r t o = ground (
    arith,
    offset_back f.global_position.x e.global_position.x (ops.frame_geometry w.base).x,
    offset_back f.global_position.y e.global_position.y (ops.frame_geometry w.base).y,
  )
