-- ===== src/Tests.antt =====
-- Sample data, runs of the model on it, and the theorems applied to it.
mod Data
mod Store
mod StfTests
mod TransitionTests
mod CoreTests
mod ProverTests
mod SequencerTests
mod BlockBytes
mod QueueTests
mod Guest
mod ContractTests
mod ProveTests
mod WorkerTests
mod RoundTests
mod FifoTests
mod ScriptTests
mod LaunchTests
mod PipelineTests
mod IdleTests
mod DrainTests
