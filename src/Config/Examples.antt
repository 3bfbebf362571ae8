-- ===== src/Config/Examples.antt =====
-- The theorems on configurations, on short ones.
use star_server.Prelude.{◌≡◌, refl, [], ◌∷◌, ◌++◌, some, Mem, write, arith}
use star_server.Prelude.Text.{codes}
use star_server.Config.{get_string_value_config, starts_with}
use star_server.Config.Values.{value_text, get_string_value_config-value}

abbrev old : Mem
old a = 7

-- `#X` is in front of the line, and a space and `Y` are behind the value.
get_string_value_config-value_example :
    get_string_value_config
      (codes "#X\n"
        ++ (codes "PORT" ++ (codes "  " ++ b'=' ∷ value_text 1 (codes "9'9") b' ' (codes "Y\n"))))
      (codes "PORT")
      old
    ≡ some (write old 0 (b'9' ∷ 0 ∷ b'9' ∷ 0 ∷ []))
unfolding starts_with
get_string_value_config-value_example =
    get_string_value_config-value (codes "#X\n") (codes "PORT") (codes "  ") 1 b'9' (codes "'9")
      b' ' (codes "Y\n") old (λ e. cc) (ground arith) (ground arith) (ground arith) refl
