-- ===== src/Notifications/Framed.antt =====
-- A notification touches its own table and the streams only.
use stellances.Base.{arith}
use stellances.World.Frame.{Framed}
use stellances.World.{Env}
use stellances.Notifications.{create, insert_notification, push, CreateNotificationDto}

pub create-Framed : (env : Env) (dto : CreateNotificationDto) → Framed (create env dto)
unfolding create insert_notification push
create-Framed env dto w = ground arith
