-- ===== src/Rooms/Confirm.antt =====
-- `STSV_SendConfirmCreateRoom`, `STSV_SendConfirmJoinRoom` and `STSV_SendConfimrExitRoom`: the room's
-- number goes in the place of the packet number.
use star_server.Prelude.{ℕ, Option}
use star_server.Session.State.{Server, World, data_size_message, send_or_leave}

abbrev sockmsg_confirm_create_room : ℕ
sockmsg_confirm_create_room = 0xfff1

abbrev sockmsg_confirm_join_room : ℕ
sockmsg_confirm_join_room = 0xfff0

abbrev sockmsg_confirm_exti_room : ℕ
sockmsg_confirm_exti_room = 0xffee

unfoldable send_confirm_create_room : Server → ℕ → World → Option World
send_confirm_create_room s room w =
    send_or_leave s w (data_size_message sockmsg_confirm_create_room room)

unfoldable send_confirm_join_room : Server → ℕ → World → Option World
send_confirm_join_room s room w =
    send_or_leave s w (data_size_message sockmsg_confirm_join_room room)

unfoldable send_confirm_exit_room : Server → ℕ → World → Option World
send_confirm_exit_room s room w =
    send_or_leave s w (data_size_message sockmsg_confirm_exti_room room)
