-- ===== src/Boot/Console.antt =====
-- The text screen of the second stage: stage2/SCREEN_DRIVER/screen_driver.c. Its cursor and the video
-- buffer are those of the kernel's Screen, and so are the steps for a line feed and for a character;
-- a backspace and a tab are characters here.
use my_operating_system.Base.{ℕ, ◌==◌, if◌then◌else◌, List, [], ◌∷◌, some}
use my_operating_system.Screen
use my_operating_system.Screen.{Screen, next_row, put_plain}
use my_operating_system.Machine.{Machine, M}

unfoldable pub put_char : ℕ → ℕ → Screen → Screen
put_char c color s =
    if c == 0
    then s
    else if c == 10
    then next_row s
    else if c == 13
    then record s { cursor_x = 0 }
    else put_plain c color s

unfoldable pub put_string : List ℕ → Screen → Screen
put_string [] s = s
put_string (c ∷ cs) s = put_string cs (put_char c 0x04 s)

abbrev pub screen_of : Machine → Screen
screen_of s = record { cursor_x = s.cursor_x; cursor_y = s.cursor_y; memory = s.ata.memory }

abbrev pub with_screen : (Screen → Screen) → M (Unit {0})
with_screen f s =
    let d = f (screen_of s) in
    some (
      tt,
      record s {
        cursor_x = d.cursor_x;
        cursor_y = d.cursor_y;
        ata = record s.ata { memory = d.memory };
      },
    )

unfoldable pub clear_screen : M (Unit {0})
clear_screen = with_screen Screen.clear_screen

unfoldable pub print_string : List ℕ → M (Unit {0})
print_string text = with_screen (put_string text)
