-- ===== src/Config/Written.antt =====
-- The file that `ReadConfigFile` writes where there is none, read again.
use star_server.Prelude.{ℕ, ◌≡◌, refl, List, [], none, some, Mem}
use star_server.Config.{
  get_string_value_config, strstr, starts_with, behind_equals, copy_value, put_char, skip_spaces,
  read_value, atoi, digits, signed_digits,
}
use star_server.Config.Settings.{read_config_file, read_settings, default_settings, default_file}
use star_server.Transfer.Files.{c_string}

-- Where there is no configuration file, `ReadConfigFile` takes `default_settings` and writes
-- `default_file`. When it reads that file, whatever its stack held before, it gets these settings but for
-- the database password, which is empty, and leaves the file as it is.
read_config_file_again :
    (before before' : List ℕ) (v v' : Mem)
    → (read_config_file none before v ≡ some (default_settings, some default_file))
      × (read_config_file (some default_file) before' v'
          ≡ some (record default_settings { db_pass = [] }, some default_file))
unfolding read_config_file read_settings get_string_value_config strstr starts_with behind_equals
    copy_value put_char skip_spaces read_value atoi digits signed_digits c_string
read_config_file_again before before' v v' = (refl, refl)
