-- ===== src/Color/Tests.antt =====
-- Runs of the colours, and the theorems at inputs of theirs.
use go_toolkits.Base.{ℕ, ◌^◌, ◌<◌, ◌≡◌, refl, true, none, some, [], ◌∷◌, arith, inl}
use go_toolkits.Base.Bytes.{codes}
use go_toolkits.Color.Text.{to_color64-to_rgb}
use go_toolkits.Color.{conv_mt_color, to_rgb, to_color_name, color_eq, to_color64, format_hex, pos}

red_to_blue : conv_mt_color 0x800000FF ≡ 0x80FF0000
unfolding conv_mt_color
red_to_blue = refl

prints : to_rgb 0x00FF7F ≡ codes "#00FF7F"
unfolding to_rgb format_hex go_toolkits.Color.hex_fixed go_toolkits.Color.hex_count
    go_toolkits.Color.hex_digit
prints = refl

names : to_color_name 0xFF7F50 ≡ codes "CORAL"
unfolding to_color_name go_toolkits.Color.value_at go_toolkits.Base.Assoc.lookup
    go_toolkits.Color.rgb_name go_toolkits.Color.Table.color_names go_toolkits.Base.Assoc.insert
    go_toolkits.Base.Bytes.same to_rgb format_hex go_toolkits.Color.hex_fixed
    go_toolkits.Color.hex_count go_toolkits.Color.hex_digit go_toolkits.Color.to_upper
    go_toolkits.Color.upper_byte
names = refl

to_color64-to_rgb_example : to_color64 (to_rgb 0xFF7F50) ≡ some (pos 0xFF7F50)
to_color64-to_rgb_example = to_color64-to_rgb 0xFF7F50 (omega arith)
