-- ===== src/Tests/Windows.antt =====
-- The theorems on the camera's object (client/src/message/video) with the meeting window, and on
-- frameless windows (client/include/widget/frameless_window.h) at concrete states.
use cloud_meeting_client.Client.Camera.{CameraVideo, nothing}
use cloud_meeting_client.Client.Camera.Session.{Input, window, frame, on_inputs}
use cloud_meeting_client.Client.Camera.Displays.{Shows}
use cloud_meeting_client.Client.Camera.Events.{on_inputs-Shows}
use cloud_meeting_client.Client.Meeting.Events.{
  Outside, user_info_message, request_message, video_message, video_clicked, closed,
}
use cloud_meeting_client.Client.Message.{
  message, create_meeting_response_message, partner_join_message, partner_exit_message,
  recv_image_message,
}
use cloud_meeting_client.Client.Frameless.{
  Base, FramelessWindow, Point, Rect, Size, MouseEvent, no_region, no_size, maximize_icon,
  widget_size_max, is_region,
}
use cloud_meeting_client.Tests.Meeting.{idle_window}
use cloud_meeting_client.Prelude.{
  pos, false, ◌∷◌, ◌==◌, [], ◌+◌, true, refl, none, Bool, List, ℕ, ◌+ℤ◌, ◌-ℤ◌, ℤ, arith, ◌≡◌,
}
use cloud_meeting_client.Client.Frameless.Window.{
  min_size, do_resize, hit_test, mouse_move_event, toggle_maximize, max_size, mouse_press_event,
  is_in_title_bar, is_over_title_button,
}
use cloud_meeting_client.Client.Frameless.Gestures.{
  idle, pressed, moved, Reach, IsTracked, Reach-IsTracked, mouse_move_event-mouse_press_event,
}
use cloud_meeting_client.Client.Frameless.Maximizing.{BaseLaws, toggle_maximize-toggle_maximize}
use cloud_meeting_client.Client.Frameless.Resizing.{IsDragged, HasRoom, do_resize-IsDragged}

abbrev dark_camera : CameraVideo ℕ
dark_camera = record {
  has_main = true;
  main_label = nothing;
  partner_displays = [];
  last_images = [];
  local_ip = 0;
  main_ip = 0;
  is_running = false;
  sink_connected = true;
}

abbrev at_seven : Outside
at_seven = record {
  local_ip = 7;
  camera_running = false;
  to_int = λ text. 12;
  show_address = λ ip. ip ∷ [];
  cur_time = 200;
}

abbrev meeting_inputs : List (Input ℕ)
meeting_inputs =
    window (request_message (message (create_meeting_response_message 5)))
    ∷ window video_clicked
    ∷ frame true 3
    ∷ window (user_info_message (record { ip = 9; content = partner_join_message }))
    ∷ window (video_message (record { ip = 9; content = recv_image_message 4 }))
    ∷ window (user_info_message (record { ip = 7; content = partner_exit_message }))
    ∷ window closed
    ∷ []

on_inputs-Shows_example :
    let (w, c) = on_inputs (λ i. i == 0) at_seven meeting_inputs (idle_window, dark_camera) in
    Shows ℕ (λ i. i == 0) 9 w c
on_inputs-Shows_example =
    on_inputs-Shows ℕ (λ i. i == 0) 9 at_seven meeting_inputs (idle_window, dark_camera)
      (refl, refl)

-- A widget that keeps its geometry, its maximum size and whether it is maximized, with a minimum size.
abbrev Widget : Type 0
Widget = Rect × Size × Bool

abbrev plain : Base Widget
plain = record {
  geometry = λ b. b.0;
  frame_geometry = λ b. b.0;
  normal_geometry = λ b. b.0;
  is_maximized = λ b. b.2;
  minimum_size = λ b. record { width = pos 200; height = pos 120 };
  minimum_size_hint = λ b. no_size;
  maximum_size = λ b. b.1;
  avail_geometry = λ p b. none;
  set_geometry = λ r b. (r, b.1, b.2);
  move_to = λ p b. (record b.0 { x = p.x; y = p.y }, b.1, b.2);
  set_maximum_size = λ s b. (b.0, s, b.2);
  show_normal = λ b. (b.0, b.1, false);
  show_maximized = λ b. (b.0, b.1, true);
  clear_maximized = λ b. (b.0, b.1, false);
  grab_mouse = λ b. b;
  release_mouse = λ b. b;
  set_cursor = λ c b. b;
  unset_cursor = λ b. b;
  close_visible = λ b. true;
  max_visible = λ b. true;
  set_max_visible = λ v b. b;
  press_event = λ e b. b;
  move_event = λ e b. b;
  release_event = λ e b. b;
}

abbrev origin : Point
origin = record { x = pos 0; y = pos 0 }

abbrev square : Rect
square = record { x = pos 100; y = pos 100; width = pos 300; height = pos 200 }

abbrev small_window : FramelessWindow Widget
small_window = record {
  base = (square, record { width = widget_size_max; height = pos 250 }, false);
  dragging = false;
  resizing = false;
  resizable = true;
  maximizable = true;
  drag_offset = origin;
  drag_global_pos = record { x = pos 101; y = pos 150 };
  drag_geometry = square;
  normal_geometry = square;
  resize_region = no_region;
  saved_max_size = no_size;
  title_bar_height = pos 36;
  close_button_at = origin;
  max_button_at = origin;
  icon = maximize_icon;
}

-- The left edge is dragged to the left.
abbrev stretched : FramelessWindow Widget
stretched = record small_window {
  resizing = true;
  resize_region = record no_region { left = true };
}

abbrev event_at : ℕ → ℕ → MouseEvent
event_at x y = record {
  is_left = true;
  left_down = true;
  position = record { x = pos x; y = pos y };
  global_position = record { x = pos (100 + x); y = pos (100 + y) };
}

stretched-HasRoom : HasRoom plain stretched.base
unfolding min_size max_size ◌+ℤ◌
stretched-HasRoom = (omega arith, omega arith)

abbrev further_left : Point
further_left = record { x = pos 61; y = pos 150 }

do_resize-IsDragged_example :
    let b = (do_resize plain further_left stretched).base in
    IsDragged true false
      (pos 61 -ℤ pos 101)
      (pos 100)
      (pos 300)
      (min_size plain stretched.base).width
      (max_size plain stretched.base).width
      b.0.x
      b.0.width
    × IsDragged false false
        (pos 150 -ℤ pos 150)
        (pos 100)
        (pos 200)
        (min_size plain stretched.base).height
        (max_size plain stretched.base).height
        b.0.y
        b.0.height
do_resize-IsDragged_example =
    do_resize-IsDragged plain further_left stretched stretched-HasRoom (λ r f. refl)

-- A share of nothing, for windows that are not maximized.
abbrev no_share : ℤ → ℤ → ℤ → ℤ
no_share x w l = pos 0

dragged-Reach :
    Reach plain no_share
      (mouse_move_event plain
        (event_at 60 30)
        (mouse_press_event plain no_share (event_at 50 20) small_window).0).0
      true
dragged-Reach =
    moved (mouse_press_event plain no_share (event_at 50 20) small_window).0 true (event_at 60 30)
      refl (pressed small_window (event_at 50 20) refl (idle small_window refl refl refl))

Reach-IsTracked_example :
    IsTracked plain no_share
      (mouse_move_event plain
        (event_at 60 30)
        (mouse_press_event plain no_share (event_at 50 20) small_window).0).0
      true
Reach-IsTracked_example =
    Reach-IsTracked plain no_share
      (mouse_move_event plain (event_at 60 30)
        (mouse_press_event plain no_share (event_at 50 20) small_window).0).0
      true dragged-Reach

pressed_on_title :
    (is_region (hit_test plain (event_at 50 20).position small_window) ≡ false)
    × (is_in_title_bar plain (event_at 50 20).position small_window ≡ true)
    × (is_over_title_button plain (event_at 50 20).position small_window ≡ false)
unfolding hit_test is_in_title_bar is_over_title_button ◌-ℤ◌ ◌+ℤ◌
pressed_on_title = (refl, refl, refl)

mouse_move_event-mouse_press_event_example :
    (mouse_move_event plain
      (event_at 60 30)
      (mouse_press_event plain no_share (event_at 50 20) small_window).0).0.base
    ≡ plain.move_to
        (record { x = pos 100 +ℤ (pos 160 -ℤ pos 150); y = pos 100 +ℤ (pos 130 -ℤ pos 120) })
        small_window.base
mouse_move_event-mouse_press_event_example =
    mouse_move_event-mouse_press_event plain no_share (event_at 50 20) (event_at 60 30) small_window
      refl refl refl refl pressed_on_title.0 pressed_on_title.1 pressed_on_title.2

plain-BaseLaws : BaseLaws plain
plain-BaseLaws = record {
  geometry_set = λ r b m h. refl;
  maximum_set = λ s b h. refl;
  minimum_set = λ s b. refl;
  minimum_maximized = λ b. refl;
  minimum_normal = λ b. refl;
  maximum_geometry = λ r b. refl;
  shown_maximized = λ b. refl;
  shown_normal = λ b. refl;
  maximized_maximum = λ s b m. m;
  maximized_geometry = λ r b m. m;
}

toggle_maximize-toggle_maximize_example :
    let w = toggle_maximize plain (toggle_maximize plain small_window) in
    (w.base.0 ≡ square)
    × (w.base.1 ≡ record { width = widget_size_max; height = pos 250 })
    × (w.base.2 ≡ false)
    × (w.icon ≡ maximize_icon)
    × (w.saved_max_size ≡ no_size)
toggle_maximize-toggle_maximize_example =
    toggle_maximize-toggle_maximize plain plain-BaseLaws small_window refl refl
      (omega arith, omega arith, omega arith, omega arith) (omega arith, omega arith)
      (refl, omega arith, omega arith)
