-- ===== src/Client/Frameless/Window.antt =====
-- client/include/widget/frameless_window.h: the operations of the template.
use cloud_meeting_client.Client.Frameless.{
  Base, FramelessWindow, MouseEvent, Point, Rect, Size, ResizeRegion, Cursor, hor_cursor,
  ver_cursor, f_diag_cursor, b_diag_cursor, no_region, is_region, maximize_icon, restore_icon,
  expanded_to, minus, border_width, widget_size_max, contains_point, btn_size, is_valid_size,
  is_valid_rect, q_bound, btn_margin, no_size, btn_gap,
}
use cloud_meeting_client.Prelude.{
  false, some, if◌then◌else◌, leb_ℤ, max_ℤ, length, true, ℤ, none, Bool, ltb_ℤ, not, ◌-ℤ◌, pos,
  ◌||◌, ◌+ℤ◌, ◌&&◌, Option,
}

-- One axis of the changes that `doResize` computes. `low` and `high` tell whether the edge of the
-- smaller and of the larger coordinates is dragged, `delta` how far the mouse went; the result is the
-- position and the length, within the least and the greatest length.
unfoldable pub resize_axis : Bool → Bool → ℤ → ℤ → ℤ → ℤ → ℤ → ℤ × ℤ
resize_axis low high delta position length min_length max_length =
    let fixed = position +ℤ length in
    let x = if low then position +ℤ delta else position in
    let w = if low then fixed -ℤ x else if high then length +ℤ delta else length in
    if ltb_ℤ w min_length
    then ((if low then fixed -ℤ min_length else x), min_length)
    else if ltb_ℤ max_length w
    then ((if low then fixed -ℤ max_length else x), max_length)
    else (x, w)

-- The cursor of a region; on no region, and on one with two opposite edges, the usual one.
unfoldable pub region_cursor : Bool → Bool → Bool → Bool → Option Cursor
region_cursor true false false false = some hor_cursor
region_cursor false true false false = some hor_cursor
region_cursor false false true false = some ver_cursor
region_cursor false false false true = some ver_cursor
region_cursor true false true false = some f_diag_cursor
region_cursor false true false true = some f_diag_cursor
region_cursor false true true false = some b_diag_cursor
region_cursor true false false true = some b_diag_cursor
region_cursor _ _ _ _ = none

module _ {B : Type 0} (ops : Base B) where
  -- The least size: of `minimumSize`, the hint and twice the border.
  unfoldable pub min_size : B → Size
  min_size b =
      expanded_to (expanded_to (ops.minimum_size b) (ops.minimum_size_hint b))
        (record { width = border_width +ℤ border_width; height = border_width +ℤ border_width })

  unfoldable pub max_size : B → Size
  max_size b = record {
    width =
        if leb_ℤ (ops.maximum_size b).width (pos 0)
        then widget_size_max
        else (ops.maximum_size b).width;
    height =
        if leb_ℤ (ops.maximum_size b).height (pos 0)
        then widget_size_max
        else (ops.maximum_size b).height;
  }

  -- The geometry that `doResize` sets.
  unfoldable pub resized : Point → FramelessWindow B → Rect
  resized global_pos w =
      let delta = minus global_pos w.drag_global_pos in
      let r = w.resize_region in
      let g = w.drag_geometry in
      let h =
        resize_axis r.left r.right delta.x g.x g.width (min_size w.base).width
          (max_size w.base).width in
      let v =
        resize_axis r.top r.bottom delta.y g.y g.height (min_size w.base).height
          (max_size w.base).height in
      record { x = h.0; y = v.0; width = h.1; height = v.1 }

  unfoldable pub do_resize : Point → FramelessWindow B → FramelessWindow B
  do_resize global_pos w = record w { base = ops.set_geometry (resized global_pos w) w.base }

  unfoldable pub hit_test : Point → FramelessWindow B → ResizeRegion
  hit_test p w = if not w.resizable || ops.is_maximized w.base then no_region else record {
    left = leb_ℤ (pos 0) p.x && ltb_ℤ p.x border_width;
    right =
        ltb_ℤ ((ops.geometry w.base).width -ℤ border_width) p.x
        && ltb_ℤ p.x (ops.geometry w.base).width;
    top = leb_ℤ (pos 0) p.y && ltb_ℤ p.y border_width;
    bottom =
        ltb_ℤ ((ops.geometry w.base).height -ℤ border_width) p.y
        && ltb_ℤ p.y (ops.geometry w.base).height;
  }

  unfoldable pub is_in_title_bar : Point → FramelessWindow B → Bool
  is_in_title_bar p w =
      if leb_ℤ w.title_bar_height (pos 0)
      then true
      else if w.resizable && not (ops.is_maximized w.base) && is_region (hit_test p w)
      then false
      else leb_ℤ (pos 0) p.y && ltb_ℤ p.y w.title_bar_height

  unfoldable pub is_over_title_button : Point → FramelessWindow B → Bool
  is_over_title_button p w =
      (ops.close_visible w.base && contains_point w.close_button_at btn_size p)
      || (ops.max_visible w.base && contains_point w.max_button_at btn_size p)

  unfoldable pub update_cursor : ResizeRegion → FramelessWindow B → FramelessWindow B
  update_cursor r w = elim (region_cursor r.left r.right r.top r.bottom) [
    | some c ↦ record w { base = ops.set_cursor c w.base }
    | none ↦ record w { base = ops.unset_cursor w.base }
  ]

  unfoldable pub update_title_buttons_geometry : FramelessWindow B → FramelessWindow B
  update_title_buttons_geometry w =
      let close_x = (ops.geometry w.base).width -ℤ btn_size.width -ℤ btn_margin in
      let max_x = close_x -ℤ btn_size.width -ℤ btn_gap in
      record w {
        close_button_at = record { x = close_x; y = btn_margin };
        max_button_at =
            if ops.max_visible w.base
            then record { x = max_x; y = btn_margin }
            else w.max_button_at;
      }

  unfoldable pub update_maximize_button_icon : FramelessWindow B → FramelessWindow B
  update_maximize_button_icon w = record w {
    icon = if ops.is_maximized w.base then restore_icon else maximize_icon;
  }

  -- What `resizeEvent`, `showEvent` and `changeEvent` do after the base's handler.
  unfoldable pub update_buttons : FramelessWindow B → FramelessWindow B
  update_buttons w = update_maximize_button_icon (update_title_buttons_geometry w)

  unfoldable pub set_title_bar_height : ℤ → FramelessWindow B → FramelessWindow B
  set_title_bar_height height w = record w {
    title_bar_height = if ltb_ℤ (pos 0) height then height else pos 0;
  }

  unfoldable pub set_resizable : Bool → FramelessWindow B → FramelessWindow B
  set_resizable enabled w = record w { resizable = enabled }

  unfoldable pub set_maximizable : Bool → FramelessWindow B → FramelessWindow B
  set_maximizable enabled w =
      update_title_buttons_geometry
        (record w { maximizable = enabled; base = ops.set_max_visible enabled w.base })

  -- The maximum size that was saved, where one was.
  unfoldable pub restore_max_size : FramelessWindow B → FramelessWindow B
  restore_max_size w =
      if is_valid_size w.saved_max_size
      then record w {
        base = ops.set_maximum_size w.saved_max_size w.base;
        saved_max_size = no_size;
      }
      else w

  unfoldable pub restore_geometry : FramelessWindow B → FramelessWindow B
  restore_geometry w =
      if is_valid_rect w.normal_geometry
      then record w { base = ops.set_geometry w.normal_geometry w.base }
      else w

  unfoldable pub toggle_maximize : FramelessWindow B → FramelessWindow B
  toggle_maximize w =
      if not w.maximizable
      then w
      else update_title_buttons_geometry (
          update_maximize_button_icon (
            if ops.is_maximized w.base
            then restore_geometry (restore_max_size (record w { base = ops.show_normal w.base }))
            else record w {
              normal_geometry = ops.geometry w.base;
              saved_max_size = ops.maximum_size w.base;
              base = ops.show_maximized (
                  ops.set_maximum_size
                    (record { width = widget_size_max; height = widget_size_max }) w.base);
            }))

  -- The geometry that a window is restored to.
  unfoldable pub restore_geo : FramelessWindow B → Rect
  restore_geo w =
      let r =
        if is_valid_rect w.normal_geometry then w.normal_geometry else ops.normal_geometry w.base in
      if not (is_valid_rect r)
      then record { x = pos 0; y = pos 0; width = pos 800; height = pos 600 }
      else r

  -- A corner within the screen's work area, for a window of a given size.
  unfoldable pub on_screen : Point → Size → Point → B → Point
  on_screen global_pos size corner b = elim (ops.avail_geometry global_pos b) [
    | none ↦ corner
    | some avail ↦ record {
      x = q_bound avail.x corner.x (avail.x +ℤ avail.width -ℤ pos 1 -ℤ size.width +ℤ pos 1);
      y = q_bound avail.y corner.y (avail.y +ℤ avail.height -ℤ pos 1 -ℤ size.height +ℤ pos 1);
    }
  ]

  -- `share x w l` is what the code computes with `double`: the part of `l` that `x` is of `w`, with
  -- the ratio between 0 and 1.
  unfoldable pub restore_from_maximized_at :
      (ℤ → ℤ → ℤ → ℤ) → Point → Point → FramelessWindow B → FramelessWindow B
  restore_from_maximized_at share global_pos local_pos w =
      let maximized_width = max_ℤ (ops.geometry w.base).width (pos 1) in
      let geo = restore_geo w in
      let v = restore_max_size w in
      let offset : Point = record {
        x = share local_pos.x maximized_width geo.width;
        y = q_bound (pos 0) local_pos.y (max_ℤ (w.title_bar_height -ℤ pos 1) (pos 0));
      } in
      let corner =
        on_screen global_pos (record { width = geo.width; height = geo.height })
          (minus global_pos offset) v.base in
      let b =
        ops.set_geometry
          (record { x = corner.x; y = corner.y; width = geo.width; height = geo.height })
          (ops.clear_maximized v.base) in
      update_title_buttons_geometry (
        update_maximize_button_icon
          (record v { base = b; drag_offset = offset; normal_geometry = ops.geometry b }))

  -- The press of the left button that does not begin to resize; the region has been looked up.
  unfoldable pub press_title :
      (ℤ → ℤ → ℤ → ℤ) → MouseEvent → FramelessWindow B → FramelessWindow B × Bool
  press_title share e w =
      if not (is_in_title_bar e.position w) || is_over_title_button e.position w
      then (record w { base = ops.press_event e w.base }, false)
      else if ops.is_maximized w.base && w.maximizable
      then (
        record (restore_from_maximized_at share e.global_position e.position w) { dragging = true },
        true,
      )
      else if not (ops.is_maximized w.base)
      then (
        record w {
          dragging = true;
          drag_offset =
              minus e.global_position
                (record { x = (ops.frame_geometry w.base).x; y = (ops.frame_geometry w.base).y });
        },
        true,
      )
      else (w, true)

  unfoldable pub press_left :
      (ℤ → ℤ → ℤ → ℤ) → MouseEvent → FramelessWindow B → FramelessWindow B × Bool
  press_left share e w =
      let region = hit_test e.position w in
      if w.resizable && not (ops.is_maximized w.base)
      then (if is_region region
          then (
            record w {
              resize_region = region;
              resizing = true;
              drag_global_pos = e.global_position;
              drag_geometry = ops.geometry w.base;
              base = ops.grab_mouse w.base;
            },
            true,
          )
          else press_title share e (record w { resize_region = region }))
      else press_title share e w

  -- A handler's result is the window and whether the event was accepted.
  unfoldable pub mouse_press_event :
      (ℤ → ℤ → ℤ → ℤ) → MouseEvent → FramelessWindow B → FramelessWindow B × Bool
  mouse_press_event share e w =
      if not e.is_left
      then (record w { base = ops.press_event e w.base }, false)
      else press_left share e w

  unfoldable pub mouse_move_event : MouseEvent → FramelessWindow B → FramelessWindow B × Bool
  mouse_move_event e w =
      if w.resizing && e.left_down
      then (do_resize e.global_position w, true)
      else if w.dragging && e.left_down
      then (record w { base = ops.move_to (minus e.global_position w.drag_offset) w.base }, true)
      else let v =
          if w.resizable && not (ops.is_maximized w.base) && not e.left_down
          then update_cursor (hit_test e.position w) w
          else w in
        (record v { base = ops.move_event e v.base }, false)

  unfoldable pub mouse_release_event : MouseEvent → FramelessWindow B → FramelessWindow B × Bool
  mouse_release_event e w =
      if e.is_left && (w.dragging || w.resizing)
      then (
        record w {
          base = if w.resizing then ops.release_mouse w.base else w.base;
          dragging = false;
          resizing = false;
          resize_region = no_region;
        },
        true,
      )
      else (record w { base = ops.release_event e w.base }, false)

  -- `Base::mouseDoubleClickEvent` calls `mousePressEvent`, which the template overrides.
  unfoldable pub mouse_double_click_event :
      (ℤ → ℤ → ℤ → ℤ) → MouseEvent → FramelessWindow B → FramelessWindow B × Bool
  mouse_double_click_event share e w =
      if w.maximizable
        && e.is_left
        && is_in_title_bar e.position w
        && not (is_over_title_button e.position w)
      then (toggle_maximize w, true)
      else mouse_press_event share e w

  -- `event` on a `HoverMove` at a point, before the base's handler.
  unfoldable pub hover_move : Point → FramelessWindow B → FramelessWindow B
  hover_move p w =
      if w.resizable && not (ops.is_maximized w.base) && not w.dragging && not w.resizing
      then update_cursor (hit_test p w) w
      else w
