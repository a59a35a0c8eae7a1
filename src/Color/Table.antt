-- ===== src/Color/Table.antt =====
-- The table of utils/color.go, in the order of the source.
use go_toolkits.Base.{List, [], ◌∷◌}
use go_toolkits.Base.Bytes.{Bytes, codes}

-- _colorNameMap
unfoldable pub color_names : List (Bytes × Bytes)
color_names =
    (codes "None", codes "#FF000000")
    ∷ (codes "IndianRed", codes "#CD5C5C")
    ∷ (codes "LightCoral", codes "#F08080")
    ∷ (codes "Salmon", codes "#FA8072")
    ∷ (codes "DarkSalmon", codes "#E9967A")
    ∷ (codes "LightSalmon", codes "#FFA07A")
    ∷ (codes "Crimson", codes "#DC143C")
    ∷ (codes "Red", codes "#FF0000")
    ∷ (codes "FireBrick", codes "#B22222")
    ∷ (codes "DarkRed", codes "#8B0000")
    ∷ (codes "Pink", codes "#FFC0CB")
    ∷ (codes "LightPink", codes "#FFB6C1")
    ∷ (codes "HotPink", codes "#FF69B4")
    ∷ (codes "DeepPink", codes "#FF1493")
    ∷ (codes "MediumVioletRed", codes "#C71585")
    ∷ (codes "PaleVioletRed", codes "#DB7093")
    ∷ (codes "Coral", codes "#FF7F50")
    ∷ (codes "Tomato", codes "#FF6347")
    ∷ (codes "OrangeRed", codes "#FF4500")
    ∷ (codes "DarkOrange", codes "#FF8C00")
    ∷ (codes "Orange", codes "#FFA500")
    ∷ (codes "Gold", codes "#FFD700")
    ∷ (codes "Yellow", codes "#FFFF00")
    ∷ (codes "LightYellow", codes "#FFFFE0")
    ∷ (codes "LemonChiffon", codes "#FFFACD")
    ∷ (codes "LightGoldenrodYellow", codes "#FAFAD2")
    ∷ (codes "PapayaWhip", codes "#FFEFD5")
    ∷ (codes "Moccasin", codes "#FFE4B5")
    ∷ (codes "PeachPuff", codes "#FFDAB9")
    ∷ (codes "PaleGoldenrod", codes "#EEE8AA")
    ∷ (codes "Khaki", codes "#F0E68C")
    ∷ (codes "DarkKhaki", codes "#BDB76B")
    ∷ (codes "Lavender", codes "#E6E6FA")
    ∷ (codes "Thistle", codes "#D8BFD8")
    ∷ (codes "Plum", codes "#DDA0DD")
    ∷ (codes "Violet", codes "#EE82EE")
    ∷ (codes "Orchid", codes "#DA70D6")
    ∷ (codes "Magenta", codes "#FF00FF")
    ∷ (codes "MediumOrchid", codes "#BA55D3")
    ∷ (codes "MediumPurple", codes "#9370DB")
    ∷ (codes "Amethyst", codes "#9966CC")
    ∷ (codes "BlueViolet", codes "#8A2BE2")
    ∷ (codes "DarkViolet", codes "#9400D3")
    ∷ (codes "DarkOrchid", codes "#9932CC")
    ∷ (codes "DarkMagenta", codes "#8B008B")
    ∷ (codes "Purple", codes "#800080")
    ∷ (codes "Indigo", codes "#4B0082")
    ∷ (codes "SlateBlue", codes "#6A5ACD")
    ∷ (codes "DarkSlateBlue", codes "#483D8B")
    ∷ (codes "MediumSlateBlue", codes "#7B68EE")
    ∷ (codes "GreenYellow", codes "#ADFF2F")
    ∷ (codes "Chartreuse", codes "#7FFF00")
    ∷ (codes "LawnGreen", codes "#7CFC00")
    ∷ (codes "Lime", codes "#00FF00")
    ∷ (codes "LimeGreen", codes "#32CD32")
    ∷ (codes "PaleGreen", codes "#98FB98")
    ∷ (codes "LightGreen", codes "#90EE90")
    ∷ (codes "MediumSpringGreen", codes "#00FA9A")
    ∷ (codes "SpringGreen", codes "#00FF7F")
    ∷ (codes "MediumSeaGreen", codes "#3CB371")
    ∷ (codes "SeaGreen", codes "#2E8B57")
    ∷ (codes "ForestGreen", codes "#228B22")
    ∷ (codes "Green", codes "#008000")
    ∷ (codes "DarkGreen", codes "#006400")
    ∷ (codes "YellowGreen", codes "#9ACD32")
    ∷ (codes "OliveDrab", codes "#6B8E23")
    ∷ (codes "Olive", codes "#808000")
    ∷ (codes "DarkOliveGreen", codes "#556B2F")
    ∷ (codes "MediumAquamarine", codes "#66CDAA")
    ∷ (codes "DarkSeaGreen", codes "#8FBC8F")
    ∷ (codes "LightSeaGreen", codes "#20B2AA")
    ∷ (codes "DarkCyan", codes "#008B8B")
    ∷ (codes "Teal", codes "#008080")
    ∷ (codes "Aqua", codes "#00FFFF")
    ∷ (codes "Cyan", codes "#00FFFF")
    ∷ (codes "LightCyan", codes "#E0FFFF")
    ∷ (codes "PaleTurquoise", codes "#AFEEEE")
    ∷ (codes "Aquamarine", codes "#7FFFD4")
    ∷ (codes "Turquoise", codes "#40E0D0")
    ∷ (codes "MediumTurquoise", codes "#48D1CC")
    ∷ (codes "DarkTurquoise", codes "#00CED1")
    ∷ (codes "CadetBlue", codes "#5F9EA0")
    ∷ (codes "SteelBlue", codes "#4682B4")
    ∷ (codes "LightSteelBlue", codes "#B0C4DE")
    ∷ (codes "PowderBlue", codes "#B0E0E6")
    ∷ (codes "LightBlue", codes "#ADD8E6")
    ∷ (codes "SkyBlue", codes "#87CEEB")
    ∷ (codes "LightSkyBlue", codes "#87CEFA")
    ∷ (codes "DeepSkyBlue", codes "#00BFFF")
    ∷ (codes "DodgerBlue", codes "#1E90FF")
    ∷ (codes "CornflowerBlue", codes "#6495ED")
    ∷ (codes "RoyalBlue", codes "#4169E1")
    ∷ (codes "Blue", codes "#0000FF")
    ∷ (codes "MediumBlue", codes "#0000CD")
    ∷ (codes "DarkBlue", codes "#00008B")
    ∷ (codes "Navy", codes "#000080")
    ∷ (codes "MidnightBlue", codes "#191970")
    ∷ (codes "Cornsilk", codes "#FFF8DC")
    ∷ (codes "BlanchedAlmond", codes "#FFEBCD")
    ∷ (codes "Bisque", codes "#FFE4C4")
    ∷ (codes "NavajoWhite", codes "#FFDEAD")
    ∷ (codes "Wheat", codes "#F5DEB3")
    ∷ (codes "BurlyWood", codes "#DEB887")
    ∷ (codes "Tan", codes "#D2B48C")
    ∷ (codes "RosyBrown", codes "#BC8F8F")
    ∷ (codes "SandyBrown", codes "#F4A460")
    ∷ (codes "Goldenrod", codes "#DAA520")
    ∷ (codes "DarkGoldenrod", codes "#B8860B")
    ∷ (codes "Peru", codes "#CD853F")
    ∷ (codes "Chocolate", codes "#D2691E")
    ∷ (codes "SaddleBrown", codes "#8B4513")
    ∷ (codes "Sienna", codes "#A0522D")
    ∷ (codes "Brown", codes "#A52A2A")
    ∷ (codes "Maroon", codes "#800000")
    ∷ (codes "White", codes "#FFFFFF")
    ∷ (codes "Snow", codes "#FFFAFA")
    ∷ (codes "Honeydew", codes "#F0FFF0")
    ∷ (codes "MintCream", codes "#F5FFFA")
    ∷ (codes "Azure", codes "#F0FFFF")
    ∷ (codes "AliceBlue", codes "#F0F8FF")
    ∷ (codes "GhostWhite", codes "#F8F8FF")
    ∷ (codes "WhiteSmoke", codes "#F5F5F5")
    ∷ (codes "Seashell", codes "#FFF5EE")
    ∷ (codes "Beige", codes "#F5F5DC")
    ∷ (codes "OldLace", codes "#FDF5E6")
    ∷ (codes "FloralWhite", codes "#FFFAF0")
    ∷ (codes "Ivory", codes "#FFFFF0")
    ∷ (codes "AntiqueWhite", codes "#FAEBD7")
    ∷ (codes "Linen", codes "#FAF0E6")
    ∷ (codes "LavenderBlush", codes "#FFF0F5")
    ∷ (codes "MistyRose", codes "#FFE4E1")
    ∷ (codes "Gainsboro", codes "#DCDCDC")
    ∷ (codes "LightGrey", codes "#D3D3D3")
    ∷ (codes "Silver", codes "#C0C0C0")
    ∷ (codes "DarkGray", codes "#A9A9A9")
    ∷ (codes "Gray", codes "#808080")
    ∷ (codes "DimGray", codes "#696969")
    ∷ (codes "LightSlateGray", codes "#778899")
    ∷ (codes "SlateGray", codes "#708090")
    ∷ (codes "DarkSlateGray", codes "#2F4F4F")
    ∷ (codes "Black", codes "#000000")
    ∷ []
