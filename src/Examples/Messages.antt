-- ===== src/Examples/Messages.antt =====
-- Sending and receiving on the concrete machine.
use libdatachannel_java.Prelude.{some}
use libdatachannel_java.Prelude.Int.{pos}
use libdatachannel_java.Channel.Transfer.{send_message, receive_message, receive_message_into}
use libdatachannel_java.Channel.Transfer.Outcomes.{Sent, send_message-Sent}
use libdatachannel_java.Channel.Transfer.Outcomes.Into.{Filled, receive_message_into-Filled}
use libdatachannel_java.Channel.Transfer.Outcomes.New.{Received, receive_message-Received}
use libdatachannel_java.Examples.{machine, start}

send_message-Sent_example :
    Sent
      (pos 2)
      (pos 16)
      (pos 48)
      start.trace
      (some 5)
      (send_message (pos 2) (some 5) (pos 16) (pos 48) machine start)
send_message-Sent_example = send_message-Sent (pos 2) (some 5) (pos 16) (pos 48) machine start

receive_message_into-Filled_example :
    Filled
      (pos 2)
      (pos 16)
      (pos 40)
      machine
      start.trace
      (some 5)
      (receive_message_into (pos 2) (some 5) (pos 16) (pos 40) machine start)
receive_message_into-Filled_example =
    receive_message_into-Filled (pos 2) (some 5) (pos 16) (pos 40) machine start

receive_message-Received_example :
    Received (pos 2) machine start.trace (receive_message (pos 2) machine start)
receive_message-Received_example = receive_message-Received (pos 2) machine start
