-- ===== src/Tests/Texts.antt =====
-- Texts on their way to a client and back.
use mcchost.Base.{◌≡◌, refl, true, false, [], ◌∷◌, arith}
use mcchost.Packet.Config.{Config}
use mcchost.Packet.Text.{nb_string_write}
use mcchost.Packet.Ascii.{IsPrintable}
use mcchost.Receive.Frame.{Bytes}
use mcchost.Receive.Text.{used_len, clean_byte, clean_first, strip, sanitise_nbstring}
use mcchost.Receive.Clean.{All, sanitise_nbstring-IsPrintable, sanitise_nbstring-nb_string_write}
use mcchost.Tests.Packets.{cpe_client, plain_colours}

abbrev all_text_client : Config
all_text_client = record cpe_client { extn_alltext = true }

-- A smile, a letter and an accented letter of code page 437.
abbrev smile : Bytes
smile = 1 ∷ b'a' ∷ 130 ∷ []

smile_cleaned :
    sanitise_nbstring false (b' ' ∷ 1 ∷ 0 ∷ 130 ∷ 0 ∷ b' ' ∷ []) true
    ≡ b' ' ∷ b'*' ∷ b' ' ∷ b'e' ∷ []
unfolding sanitise_nbstring used_len clean_byte clean_first strip
smile_cleaned = refl

sanitise_nbstring-IsPrintable_example : All IsPrintable (sanitise_nbstring false smile true)
sanitise_nbstring-IsPrintable_example =
    sanitise_nbstring-IsPrintable smile (omega arith, (omega arith, (omega arith, tt)))

strip-smile : strip smile ≡ smile
unfolding strip
strip-smile = refl

sanitise_nbstring-nb_string_write_example :
    sanitise_nbstring true (nb_string_write all_text_client plain_colours 0 smile) false ≡ smile
sanitise_nbstring-nb_string_write_example =
    sanitise_nbstring-nb_string_write all_text_client plain_colours 0 false smile refl
      (omega arith, (omega arith, (omega arith, tt))) (omega arith) strip-smile
