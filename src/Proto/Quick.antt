-- ===== src/Proto/Quick.antt =====
-- protomsgs.c: a message without data.
use soter.Base.{ℕ, ◌≡◌, refl, true, some, []}
use soter.Proto.{PackType, make_pack, msg_quick, filled}

pub msg_quick-granted :
    (from to seq : ℕ) (type : PackType)
    → msg_quick true from to seq type ≡ some (filled seq from to type 0 [])
unfolding msg_quick make_pack
msg_quick-granted from to seq type = refl
