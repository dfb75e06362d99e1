-- ===== src/Protocol/Arrival/Streams.antt =====
-- server/sender_thread.cpp and client/client_protocol.cpp: the updates of a connection, one after another.
use argentum_online_taller_g.Prelude.{List, map, length, All}
use argentum_online_taller_g.Protocol.Wire.{put_each, recv_each}
use argentum_online_taller_g.Protocol.Reads.{Reads, each_as-Reads}
use argentum_online_taller_g.Protocol.Updates.{GameUpdate}
use argentum_online_taller_g.Protocol.Fits.{Fits}
use argentum_online_taller_g.Protocol.Sending.{send_update}
use argentum_online_taller_g.Protocol.Receiving.{receive_update}
use argentum_online_taller_g.Protocol.Arrival.{received}
use argentum_online_taller_g.Protocol.Arrival.Messages.{receive_update-send_update}

-- Updates whose fields fit their places in the messages are all sent, and a client that receives as
-- many updates from these bytes, followed by anything, gets each of them as `received` has it, in the
-- order in which they were sent, and has read exactly these bytes.
pub stream-received :
    (us : List GameUpdate)
    → All Fits us
    → Reads (put_each send_update us) (recv_each (length us) receive_update) (map received us)
stream-received = each_as-Reads send_update receive_update received receive_update-send_update
