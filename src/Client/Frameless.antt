-- ===== src/Client/Frameless.antt =====
-- client/include/widget/frameless_window.h: windows without the system's frame, which are moved,
-- resized and maximized by the template itself. Coordinates are integers; the template's `Base`, a
-- widget of Qt, is given by the operations that the code calls on it.
pub mod Window
pub mod Resizing
pub mod Gestures
pub mod Maximizing
use cloud_meeting_client.Prelude.{
  Bool, ℤ, pos, negsuc, ◌+ℤ◌, ◌-ℤ◌, ltb_ℤ, leb_ℤ, max_ℤ, min_ℤ, true, false, not, ◌&&◌, ◌||◌,
  if◌then◌else◌, Option, none, some,
}

pub record Point : Type 0 where
  pub x : ℤ
  pub y : ℤ

pub record Size : Type 0 where
  pub width : ℤ
  pub height : ℤ

pub record Rect : Type 0 where
  pub x : ℤ
  pub y : ℤ
  pub width : ℤ
  pub height : ℤ

-- The four bits of the region; `None` has none of them.
pub record ResizeRegion : Type 0 where
  pub left : Bool
  pub right : Bool
  pub top : Bool
  pub bottom : Bool

abbrev pub no_region : ResizeRegion
no_region = record { left = false; right = false; top = false; bottom = false }

abbrev pub is_region : ResizeRegion → Bool
is_region r = r.left || r.right || r.top || r.bottom

pub data Cursor : Type 0 where
  hor_cursor ver_cursor f_diag_cursor b_diag_cursor : Cursor

-- `is_left` tells whether the event's button is the left one, `left_down` whether the left one is
-- among the buttons that are down.
pub record MouseEvent : Type 0 where
  pub is_left : Bool
  pub left_down : Bool
  pub position : Point
  pub global_position : Point

-- What the code calls on the widget that it derives from and on its two buttons. `avail_geometry` is
-- that of the screen at a point, where there is one. The widget's handler of a double click is not
-- among them: it is Qt's, which calls the virtual `mousePressEvent`.
pub record Base (B : Type 0) : Type 0 where
  pub geometry : B → Rect
  pub frame_geometry : B → Rect
  pub normal_geometry : B → Rect
  pub is_maximized : B → Bool
  pub minimum_size : B → Size
  pub minimum_size_hint : B → Size
  pub maximum_size : B → Size
  pub avail_geometry : Point → B → Option Rect
  pub set_geometry : Rect → B → B
  pub move_to : Point → B → B
  pub set_maximum_size : Size → B → B
  pub show_normal : B → B
  pub show_maximized : B → B
  pub clear_maximized : B → B
  pub grab_mouse : B → B
  pub release_mouse : B → B
  pub set_cursor : Cursor → B → B
  pub unset_cursor : B → B
  pub close_visible : B → Bool
  pub max_visible : B → Bool
  pub set_max_visible : Bool → B → B
  pub press_event : MouseEvent → B → B
  pub move_event : MouseEvent → B → B
  pub release_event : MouseEvent → B → B

pub data Icon : Type 0 where
  maximize_icon restore_icon : Icon

-- `close_button_at` and `max_button_at` are where the buttons stand.
pub record FramelessWindow (B : Type 0) : Type 0 where
  pub base : B
  pub dragging : Bool
  pub resizing : Bool
  pub resizable : Bool
  pub maximizable : Bool
  pub drag_offset : Point
  pub drag_global_pos : Point
  pub drag_geometry : Rect
  pub normal_geometry : Rect
  pub resize_region : ResizeRegion
  pub saved_max_size : Size
  pub title_bar_height : ℤ
  pub close_button_at : Point
  pub max_button_at : Point
  pub icon : Icon

abbrev pub border_width : ℤ
border_width = pos 6

abbrev pub btn_margin : ℤ
btn_margin = pos 6

abbrev pub btn_gap : ℤ
btn_gap = pos 4

-- The size that both buttons are fixed to.
abbrev pub btn_size : Size
btn_size = record { width = pos 32; height = pos 28 }

-- `QWIDGETSIZE_MAX`
abbrev pub widget_size_max : ℤ
widget_size_max = pos 16777215

-- `QSize()`, which is not valid
abbrev pub no_size : Size
no_size = record { width = negsuc 0; height = negsuc 0 }

abbrev pub is_valid_size : Size → Bool
is_valid_size s = leb_ℤ (pos 0) s.width && leb_ℤ (pos 0) s.height

-- `isValid` of a `QRect`
abbrev pub is_valid_rect : Rect → Bool
is_valid_rect r = ltb_ℤ (pos 0) r.width && ltb_ℤ (pos 0) r.height

-- `contains` of the rectangle of a button that stands at a point.
abbrev pub contains_point : Point → Size → Point → Bool
contains_point at size p =
    leb_ℤ at.x p.x
    && ltb_ℤ p.x (at.x +ℤ size.width)
    && leb_ℤ at.y p.y
    && ltb_ℤ p.y (at.y +ℤ size.height)

abbrev pub expanded_to : Size → Size → Size
expanded_to s t = record { width = max_ℤ s.width t.width; height = max_ℤ s.height t.height }

-- `qBound`
abbrev pub q_bound : ℤ → ℤ → ℤ → ℤ
q_bound low value high = max_ℤ low (min_ℤ high value)

abbrev pub minus : Point → Point → Point
minus p q = record { x = p.x -ℤ q.x; y = p.y -ℤ q.y }
