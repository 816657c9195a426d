-- ===== src/KafkaClients.antt =====
-- The clients of Kafka that the processes make: the three writers of NewEventPublisher in
-- internal/adapter/gateway/broker/publisher.go, and the readers of NewWorker,
-- NewPersistenceWorker and NewStreamingWorker in internal/adapter/controller/consumer.
pub mod Topics
mod Tests
use golang_learning.Prelude.{ℕ, ◌*◌, GoString, bytes, Bool, true, List, Option, none, some}
use golang_learning.Config.{Config}
use golang_learning.Publisher.{Writer, writer, stream_writer, persist_writer}

-- time.Duration counts nanoseconds.
abbrev pub millisecond : ℕ
millisecond = 1000000

abbrev pub second : ℕ
second = 1000 * millisecond

-- The balancer and the compression that the source names.
pub data Balancer : Type 0 where
  hash : Balancer

pub data Compression : Type 0 where
  lz4 : Compression

-- The fields of kafka.Writer that the source sets.
pub record WriterConfig : Type 0 where
  pub addr : List GoString
  pub balancer : Balancer
  pub batch_timeout : ℕ
  pub batch_size : ℕ
  pub async : Bool
  pub compression : Option Compression

-- NewEventPublisher
unfoldable pub new_event_publisher : Config → Writer → WriterConfig
new_event_publisher cfg writer = record {
  addr = cfg.kafka_brokers;
  balancer = hash;
  batch_timeout = 10 * millisecond;
  batch_size = 500;
  async = true;
  compression = some lz4;
}
new_event_publisher cfg stream_writer = record {
  addr = cfg.kafka_brokers;
  balancer = hash;
  batch_timeout = 0;
  batch_size = 1;
  async = true;
  compression = none;
}
new_event_publisher cfg persist_writer = record {
  addr = cfg.kafka_brokers;
  balancer = hash;
  batch_timeout = 100 * millisecond;
  batch_size = 500;
  async = true;
  compression = some lz4;
}

-- The fields of kafka.ReaderConfig that the source sets.
pub record ReaderConfig : Type 0 where
  pub brokers : List GoString
  pub group_id : GoString
  pub topic : GoString
  pub min_bytes : ℕ
  pub max_bytes : ℕ
  pub max_wait : ℕ
  pub commit_interval : ℕ

-- NewWorker: the reader, and the bound of the semaphore; `num_cpu` is runtime.NumCPU.
pub record WorkerConfig : Type 0 where
  pub reader : ReaderConfig
  pub concurrency : ℕ

unfoldable pub new_worker : ℕ → Config → WorkerConfig
unfolding bytes
new_worker num_cpu cfg = record {
  concurrency = num_cpu * 50;
  reader = record {
    brokers = cfg.kafka_brokers;
    group_id = bytes "llm-worker";
    topic = bytes "chat.requests";
    min_bytes = 10000;
    max_bytes = 10000000;
    max_wait = 50 * millisecond;
    commit_interval = second;
  };
}

unfoldable pub new_persistence_worker : Config → ReaderConfig
unfolding bytes
new_persistence_worker cfg = record {
  brokers = cfg.kafka_brokers;
  group_id = bytes "persistence-worker";
  topic = bytes "persistence-llm";
  min_bytes = 10000;
  max_bytes = 10000000;
  max_wait = 500 * millisecond;
  commit_interval = second;
}

unfoldable pub new_streaming_worker : Config → ReaderConfig
unfolding bytes
new_streaming_worker cfg = record {
  brokers = cfg.kafka_brokers;
  group_id = bytes "streaming-worker";
  topic = bytes "stream-llm-fe";
  min_bytes = 1;
  max_bytes = 10000000;
  max_wait = 10 * millisecond;
  commit_interval = second;
}
